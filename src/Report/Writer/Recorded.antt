-- ===== src/Report/Writer/Recorded.antt =====
-- What a repository's report says after its outcome was recorded.
use mathlib.Core.Path.{subst}
use yk_update_checker.Errkind.{Kind, kind_of, message}
use yk_update_checker.Named.{find, find-name}
use yk_update_checker.Prelude.Int.{pos_part}
use yk_update_checker.Report.Store.{put_dependency, Store, list_scans, done, scan_name}
use yk_update_checker.Report.Store.Ends.{
  Ends, return-Ends, bind-Ends, any-Ends, weaken-Ends, if-Ends, then-Ends, fail-Ends, bind-eq-done,
  list_scans-value, put_scan-Ends,
}
use yk_update_checker.Prelude.{
  List, Bool, ℕ, not, ◌≡◌, ◌∷◌, arith, ◌+◌, length, keep, Option, none, some, take, [], min, refl,
}
use yk_update_checker.Report.Types.{
  ScanResult, Counts, failed as failed_phase, Time, Dependency, RepoStatus, succeeded, no_counts,
  RepositoryScan, repository_scan_name, no_labels,
}
use yk_update_checker.Report.Writer.{
  count_result, is_nil, Text, Writer, dependencies, new_status, write_all, Failure, next, repo_scan,
  owned_scan, record_repo, effective_error, new_scan, with_instance,
}

-- The results counted by a test.
abbrev pub tally : (ScanResult → Bool) → List ScanResult → ℕ
tally p rs = length (keep p rs)

abbrev pub is_behind : ScanResult → Bool
is_behind r = r.update_available

abbrev pub has_error : ScanResult → Bool
has_error r = not (is_nil r.check_error)

-- `c` counts the results, on top of the counts `c₀`.
abbrev CountsFrom : Counts → List ScanResult → Counts → Type 0
CountsFrom c₀ rs c =
    (c.checked ≡ c₀.checked + length rs)
    × (c.outdated ≡ c₀.outdated + tally is_behind rs)
    × (c.failed_ ≡ c₀.failed_ + tally has_error rs)

CountsFrom-cons :
    (c₀ c : Counts) (r : ScanResult) (rs : List ScanResult)
    → CountsFrom (count_result c₀ r) rs c
    → CountsFrom c₀ (r ∷ rs) c
unfolding count_result
CountsFrom-cons c₀ c r rs h = ground arith

-- `counts` are those of the results.
pub record CountsOf (results : List ScanResult) (c : Counts) : Type 0 where
  pub checked : c.checked ≡ length results
  pub outdated : c.outdated ≡ tally is_behind results
  pub failed_ : c.failed_ ≡ tally has_error results

module _ (short_hash : Text → Text) (w : Writer) where
  write_all-CountsFrom :
      (id : Text) (old : List Dependency) (now : Time) (rs : List ScanResult) (c : Counts)
      (seen : List Text)
      → Ends (λ a _. CountsFrom c rs a.0) (write_all short_hash w id old now c seen rs)
  unfolding write_all
  write_all-CountsFrom id old now [] c seen =
      return-Ends (λ a. CountsFrom c [] a.0) (c, seen) (omega arith)
  write_all-CountsFrom id old now (r ∷ rs) c seen =
      let d = next short_hash w id old now r in
      let rest = write_all-CountsFrom id old now rs (count_result c r) (d.name ∷ seen) in
      let counted = weaken-Ends (λ a h. CountsFrom-cons c a.0 r rs h) rest in
      if-Ends _ counted (then-Ends (put_dependency d) counted)

  dependencies-CountsOf :
      (repo : Text) (results : List ScanResult) (now : Time)
      → Ends (λ c _. CountsOf results c) (dependencies short_hash w repo results now)
  unfolding dependencies
  dependencies-CountsOf repo results now = bind-Ends (any-Ends _) (λ stored _.
      bind-Ends (write_all-CountsFrom _ _ now results no_counts [])
        (λ written h. then-Ends _ (return-Ends (CountsOf results) written.0 (omega arith))))

  abbrev pub map_kind : Option Failure → Option Kind
  map_kind none = none
  map_kind (some e) = some (kind_of e)

  -- What a status says of a scan that went well, and of one that failed, where `old` stood before.
  abbrev pub Outcome : List ScanResult → Time → RepoStatus → Option Failure → RepoStatus → Type 0
  Outcome results now old none st =
      (st.phase ≡ succeeded)
      × (st.error ≡ none)
      × (st.last_success_time ≡ some now)
      × CountsOf results st.counts
  Outcome results now old (some e) st =
      (st.phase ≡ failed_phase)
      × (st.error ≡ some (record { kind = kind_of e; message = message e }))
      × (st.last_success_time ≡ old.last_success_time)
      × (st.counts ≡ old.counts)

  -- The phase, the counts and the error of a status agree with how the scan went.
  pub record IsRecorded (repo : Text) (results : List ScanResult) (now : Time) (e : Option Failure)
      (old st : RepoStatus) : Type 0 where
    pub repo_is : st.repo ≡ repo
    pub scanned_at : st.last_scan_time ≡ now
    pub outcome : Outcome results now old e st
    pub newest_first :
        st.history
        ≡ take (min (length old.history + 1) (pos_part w.history)) (
            record { time = now; phase = st.phase; counts = st.counts; error_kind = map_kind e }
            ∷ old.history)

  new_status-IsRecorded :
      (repo : Text) (results : List ScanResult) (now : Time) (e : Option Failure) (old : RepoStatus)
      → Ends
          (λ st _. IsRecorded repo results now e old st)
          (new_status short_hash w repo results now e old)
  unfolding new_status
  new_status-IsRecorded repo results now none old =
      bind-Ends (dependencies-CountsOf repo results now) (λ c h.
        return-Ends (IsRecorded repo results now none old) _ (record {
          repo_is = refl;
          scanned_at = refl;
          outcome = (refl, refl, refl, h);
          newest_first = refl;
        }))
  new_status-IsRecorded repo results now (some e) old =
      return-Ends (IsRecorded repo results now (some e) old) _ (record {
        repo_is = refl;
        scanned_at = refl;
        outcome = (refl, refl, refl, refl);
        newest_first = refl;
      })

  abbrev pub status_or_new : Text → Option RepositoryScan → RepoStatus
  status_or_new n none = (new_scan short_hash w n).status
  status_or_new n (some rs) = rs.status

  abbrev pub previous : Text → List RepositoryScan → RepoStatus
  previous n l = status_or_new n (find scan_name n l)

  abbrev Starts : Text → Option RepositoryScan → RepositoryScan → Type 0
  Starts n o rs = (rs.name ≡ n) × (rs.status ≡ status_or_new n o)

  owned_scan-Starts :
      (n : Text) (o : Option RepositoryScan)
      → ((rs : RepositoryScan) → o ≡ some rs → rs.name ≡ n)
      → Ends (λ rs _. Starts n o rs) (owned_scan short_hash w n o)
  unfolding owned_scan
  owned_scan-Starts n none h = return-Ends (Starts n none) (new_scan short_hash w n) (refl, refl)
  owned_scan-Starts n (some rs) h =
      if-Ends _ (return-Ends (Starts n (some rs)) rs (h rs refl, refl)) (fail-Ends _)

  repo_scan-Starts :
      (repo : Text) (s : Store) (rs : RepositoryScan) (s' : Store)
      → repo_scan short_hash w repo s ≡ done rs s'
      → Starts
          (repository_scan_name short_hash repo)
          (find scan_name (repository_scan_name short_hash repo) s.scans)
          rs
  unfolding repo_scan
  repo_scan-Starts repo s rs s' h =
      let (l, t, listed, owned) = bind-eq-done list_scans _ s h in
      let n = repository_scan_name short_hash repo in
      subst (λ k. Starts n (find scan_name n k) rs) (list_scans-value s listed)
        ((owned_scan-Starts n (find scan_name n l) (λ r e. find-name scan_name n l e)).ends t rs s'
          owned)

  -- After the outcome of a scan was recorded, the repository's report is stored under its name. It
  -- names the repository and the time of the scan. If the scan succeeded and did not find too many
  -- references, the phase, the time of the last success and the counts of the results are there,
  -- and no error. Otherwise it has an error, and the counts and the last success of before. Its
  -- history is this run and then the runs of before, cut at the configured number.
  pub record_repo-IsRecorded :
      (repo : Text) (results : List ScanResult) (scan_err : Option Failure) (now : Time) (s : Store)
      (s' : Store)
      → record_repo short_hash w repo results scan_err now s ≡ done tt s'
      → (rs : RepositoryScan) × (find scan_name (repository_scan_name short_hash repo) s'.scans
          ≡ some rs)
        × IsRecorded repo results now
            (effective_error results scan_err)
            (previous (repository_scan_name short_hash repo) s.scans)
            rs.status
  unfolding record_repo
  record_repo-IsRecorded repo results scan_err now s s' h =
      let (rs, t, scanned, rest) = bind-eq-done _ _ s h in
      let (st, u, stated, stored) = bind-eq-done _ _ t rest in
      let (named, started) = repo_scan-Starts repo s rs t scanned in
      let new = record rs { labels = with_instance w no_labels; status = st } in
      (
        new,
        rw (← named) ((put_scan-Ends new).ends u tt s' stored),
        subst (λ o. IsRecorded repo results now (effective_error results scan_err) o st) started
            ((new_status-IsRecorded repo results now (effective_error results scan_err)
                rs.status).ends
              t st u stated),
      )
