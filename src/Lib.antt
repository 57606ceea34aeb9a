-- ===== src/Lib.antt =====
-- The part of the update checker that decides and remembers: which configurations are accepted, which
-- references the files of a repository pin, how an image tag is read and compared, which newer tags
-- are
-- candidates, which of them survive verification, which chart version is the newest, how a tag listing
-- is searched, how look-ups are memoized, how failures are classified, how the checks of a scan run
-- and
-- what it returns, and how its outcome is recorded. Paths are from the repository's root.
--
-- The parts and their files:
--   Text           the functions of Go's `strings` and `strconv` that the program uses, on lists of
--                  code points, with Text/Cut (cuts at a character), Text/Lines, Text/Joined,
--                  Text/Decimal and Text/Distinct; Text/Utf8 and Text/Base64 are `strings.ToValidUTF8`
--                  and `base64.StdEncoding`. Named: collections of objects under unique names.
--   Errkind        internal/errkind/errkind.go: Wrap, Of, FromHTTPStatus are wrap, kind_of,
--                  from_http_status; an error is a tree as errors.As and errors.Is see it.
--   Config         internal/config/config.go: Config/Location has classifyRepoURL and userinfo,
--                  Config/Repos has SafeName, RepoAuth.validate (validate_auth) and validateRepos.
--                  Config/Secret says which locations are written with a secret.
--   Registry/Tag   internal/registry/imagetag.go: classifyTag is classify_tag, with shaLike as
--                  sha_like and the three regular expressions as form_multi, form_single, form_last.
--   Registry/Order the same file: compareCore, comparableShapes, tagScopeOK, isPrerelease.
--   Registry/Candidates  the same file: rankedCandidates, variantSegments, sameVariant, widthProbe.
--   Registry/Scope, Registry/Bump  internal/registry/scope.go: ParseScope, bumpOf, ImageScope.
--   Registry/Walk  internal/registry/imagelist.go: searchAnchors, imageTags, tagWalk (walk, collect),
--                  rolloverProbe, sameFamily. The state of the walk has a log of the requests besides
--                  the source's fields, which no operation reads. One request for a page is a parameter, whose answer may
--                  depend on the moment.
--   Registry/Verify  internal/registry/imageverify.go: candidateSignals and verifyCandidates. The
--                  metadata, the extra page of siblings and the signatures are parameters.
--   Registry/Newer internal/registry/image.go: compareVersions, which composes the search, the ranking
--                  and the verification.
--   Registry/Image the same file: lookupImage, resolveMeta, tagDigest and the notes of compareVersions;
--                  the search, the verification and the choice by date are parameters there.
--   Registry/Cache internal/registry/registry.go: fresh and getOrDo, with what the fetch returns as
--                  an argument.
--   Registry/Charts  internal/registry/charts.go and scope.go: latest, resolveCurrent, latestFromTags,
--                  latestHTTP, latestOCI, IsNewerChart, ChartScope. The library of semantic versions is
--                  the record SemverLibrary, a parameter, with SemverLaws what the code relies on; the
--                  registry's answers are parameters too.
--   Registry/Vendor  internal/registry/vendor.go: Vendor/Types has vendorAPIFor and the `info` of the
--                  three vendors, Vendor the requests of their dialects, Vendor/Path escPath and
--                  harborRepoPath, Vendor/Dates bulkTagDates, fetchBulkTagDates and fetchTagInfo.
--                  Vendor/Json is getJSON and checkRedirectChain of client.go, Vendor/AuthFile is
--                  authfile.go. What servers answer, and the names go-containerregistry reads, are
--                  parameters.
--   Extractor      internal/extractor: ImageRef and Images are images.go (parseImageRef, forEachImage,
--                  Extract), over the nodes of Node; Dockerfile is dockerfile.go; Url is ParseProtocol
--                  and SplitOCIRef of extractor.go; Yaml is yaml.go; Helm is helm.go; Flux is fluxcd.go.
--                  The YAML parser is the record YamlLibrary of Manifests, a parameter.
--   Scan/Checks    internal/scan/runner.go: extractChecks, label, newResult, checkChart, checkImage.
--   Scan/Pool      the same file: runConcurrent, as the steps of a pool of goroutines.
--   Scan/Run       the same file: Run on what its repositories give, in the order they finish.
--   Gitsync        internal/gitsync/gitsync.go: Sync, clone, fetch and git are sync, clone, fetch, git;
--                  Gitsync/Env has authEnv, sshCommand, shellQuote, gitEnv and gitConfig, Gitsync/Kinds
--                  gitKind, Gitsync/Url RedactURL. Gitsync/Shell and Gitsync/Getenv describe how a shell
--                  and git read what is built for them. What git answers is a parameter, the operating
--                  system's part the record System.
--   Trigger/Process  internal/trigger/process.go: Process.Trigger and the goroutine that waits for the
--                  child, as interleaved steps.
--   Report/Types   internal/report/types.go and internal/scan/types.go: the stored objects, their
--                  names. SHA-256 is a parameter.
--   Report/Store   internal/report/backend.go and file.go: the six operations, as a state monad with
--                  failure. Which calls fail is part of the state.
--   Report/Writer  internal/report/writer.go: Writer.Repo is record_repo, Writer.Prune is prune; next,
--                  same, dependencies, repoScan and foreignOwner keep their names.
--   Report/Poller  internal/report/poller.go: load, and the rounds of Run.
--   Metrics        internal/metrics/collector.go: Collect is collect_metrics, on the poller's snapshot;
--                  collectIssues, collectRepos, identityValues and changeValues keep their names, and
--                  bound and kindLabel are in Metrics/Label.
-- The checkouts are brought up to date (Gitsync). The extractors read the references off a
-- repository's files and the scanner checks each of them. A
-- look-up of an image classifies the current tag (Tag), searches the listing (Walk), ranks
-- (Candidates, Order, Scope) and verifies (Verify) what it found, all through the cache (Cache);
-- that of
-- a chart picks among the versions of an index or of tags (Charts). The scanner turns the outcome into
-- a result, whose error is classified (Errkind), and the writer (Report) records it. The poller reads
-- the reports back, and a scrape (Metrics) counts them.
--
-- Bounds: the loop of `walk` runs on the rounds that are left of `maxPages`, as in the source; the
-- walk over a YAML document follows aliases on fuel, which is enough when it is above the ranks of the
-- aliases (Extractor/Images/Terminates); the digits of a number are printed on fuel above the number;
-- every other loop is structural. `strconv.Atoi` fails from 2^63 on, so a version number of a tag is
-- below that; the `+ 1` of majorJump is not wrapped, as it could only matter at 2^63 - 1 itself.
--
-- Texts are lists of code points, and the code's bytes are these for the ASCII range, which tags and
-- names are in; where other bytes matter (label values, escapes, base64) a text is its bytes.
-- Folding case and trimming white space are those of that range. A time is a number of
-- seconds, which is what is stored of it.
--
-- Not modelled: HTTP, JSON, YAML, git, Kubernetes, the file system and the metrics client, which are
-- libraries and I/O, and appear as parameters where the code depends on their answers; the notes of
-- the verification; the clock of a scan timeout. Goroutines appear as
-- steps of a pool or as the order in which they finish. Left out too: the reading of the
-- configuration file,
-- the walk over the files of a checkout, newestDatedTag of internal/registry/image.go, the Kubernetes
-- trigger and backend, and the HTTP handlers.
pub mod Prelude
pub mod Text
pub mod Named
pub mod Errkind
pub mod Config
pub mod Registry
pub mod Scan
pub mod Extractor
pub mod Report
pub mod Metrics
pub mod Gitsync
pub mod Trigger
pub mod Tests
