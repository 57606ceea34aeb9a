-- ===== src/Tests/AccessTests.antt =====
-- Git, vendors and credentials: internal/gitsync, internal/registry.
use yk_update_checker.Prelude.Int.{pos}
use yk_update_checker.Prelude.{
  none, some, true, false, ◌≡◌, All, [], List, ◌∷◌, if◌then◌else◌, refl, length, ◌≤◌,
}
use yk_update_checker.Errkind.{plain, host_key, or_else}
use yk_update_checker.Text.{has_infix, Text, codes, contains}
use yk_update_checker.Config.Repos.{Repo}
use yk_update_checker.Gitsync.{Command, Answer, ok, broken, sync}
use yk_update_checker.Gitsync.Env.{System, auth_env, shell_quote}
use yk_update_checker.Gitsync.Kinds.{git_kind, first_kind}
use yk_update_checker.Gitsync.Url.{redact_url}
use yk_update_checker.Gitsync.Shell.{shell_words}
use yk_update_checker.Gitsync.Fed.{IsFed, auth_env-IsFed}
use yk_update_checker.Gitsync.Plan.{IsSynced, sync-IsSynced}
use yk_update_checker.Gitsync.Redact.{url_text, redact_url-url_text}
use yk_update_checker.Registry.Cache.{Fetched, value, get_or_do}
use yk_update_checker.Registry.Verify.{info_of}
use yk_update_checker.Registry.Vendor.Types.{Repository, QuayPage}
use yk_update_checker.Registry.Vendor.{VendorLimits, Servers}
use yk_update_checker.Registry.Vendor.Json.{
  Reply, no_reply, reply, Location, first_of, check_redirect_chain,
}
use yk_update_checker.Registry.Vendor.Path.{harbor_repo_path}
use yk_update_checker.Registry.Vendor.Policy.{IsHttps, is_followed, is_followed-IsHttps}
use yk_update_checker.Registry.Vendor.Dates.{
  Memo, bulk_tag_dates, fetch_bulk_tag_dates, listed_dates,
}
use yk_update_checker.Registry.Vendor.Wanted.{asked, bulk_tag_dates-info_of}

-- A machine where every file reads "s3cret", with a proxy's variable and one that would weaken git.
abbrev system : System
system = record {
  environ = codes "HTTPS_PROXY=p" ∷ codes "GIT_ALLOW_PROTOCOL=ext" ∷ [];
  read_file = λ path. some (codes "s3cret ");
  stat = λ path. none;
  mkdir_all = λ path. none;
}

abbrev repo : Text → Repo
repo type_ = record {
  name = codes "homelab";
  url = codes "https://git.example/homelab";
  path = [];
  auth = record {
    type_ = type_;
    token = [];
    token_file = codes "/token";
    username = [];
    password = [];
    password_file = [];
    ssh_key_path = codes "/it's/key";
    known_hosts_file = codes "/known hosts";
  };
}

quoted : shell_words (shell_quote (codes "it's")) ≡ some (codes "it's" ∷ [])
unfolding shell_words shell_quote
quoted = refl

kind_by_output : git_kind false (codes "fatal: Host key verification failed.") ≡ host_key
unfolding git_kind first_kind has_infix
kind_by_output = refl

auth_env-IsFed_example : IsFed system (repo (codes "ssh")) (auth_env system (repo (codes "ssh")))
auth_env-IsFed_example = auth_env-IsFed system (repo (codes "ssh"))

-- Git answers its first two commands, and the third fails.
abbrev answers : List Command → Command → Answer
answers [] c = ok
answers (d ∷ []) c = ok
answers log c = broken false (codes "fatal: not found") (plain (codes "exit status 128"))

sync-IsSynced_example :
    IsSynced answers system
      (repo (codes "token"))
      (codes "/git/homelab")
      (auth_env system (repo (codes "token")))
      (sync answers system (repo (codes "token")) (codes "/git/homelab"))
sync-IsSynced_example = sync-IsSynced answers system (repo (codes "token")) (codes "/git/homelab")

redact_url-url_text_example :
    redact_url
      (url_text (codes "https") (some (codes "bot:pw")) (codes "git.example") (some (codes "a@b")))
    ≡ url_text (codes "https") none (codes "git.example") (some (codes "a@b"))
redact_url-url_text_example =
    redact_url-url_text (codes "https") (some (codes "bot:pw")) (codes "git.example")
      (some (codes "a@b")) refl refl refl refl

-- A vendor that lists one tag and answers for another.
abbrev limits : VendorLimits
limits = record {
  json_bytes = 1000;
  vendor_tag_page_size = 2;
  quay_listing_pages = 4;
  hub_harbor_page_size = 100;
}

abbrev silent : {V : Type 0} → Reply V
silent = no_reply (plain (codes "no route"))

abbrev page : QuayPage
page = record {
  tags = record { name = codes "1.0"; digest = codes "sha256:a"; size = 9; start = pos 7 } ∷ [];
  has_additional = false;
}

abbrev servers : Servers
servers = record {
  hub_tags = λ u. silent;
  hub_tag = λ u. silent;
  quay_page = λ u. reply 200 (λ n. (value page, 40));
  harbor_artifacts = λ u c. silent;
  harbor_artifact = λ u c. silent;
  credentials = λ base. none;
}

abbrev parse : Text → Fetched Repository
parse name = value (record { scheme = codes "https"; host = codes "quay.io"; path = name })

abbrev no_memo : Memo
no_memo = record { img_dates = []; img_infos = [] }

bulk_tag_dates-info_of_example :
    info_of
      (bulk_tag_dates limits servers [] parse
        (codes "org/app")
        (codes "1.0" ∷ codes "2.0" ∷ [])
        no_memo).0.infos
      (codes "2.0")
    ≡ or_else
        (info_of
          (listed_dates
            (get_or_do
              (codes "tag-dates")
              no_memo.img_dates
              (codes "org/app")
              (fetch_bulk_tag_dates limits servers [] parse (codes "org/app"))).0).infos
          (codes "2.0"))
        (if contains (codes "1.0" ∷ codes "2.0" ∷ []) (codes "2.0")
          then asked limits servers [] parse (codes "org/app") no_memo (codes "2.0")
          else none)
bulk_tag_dates-info_of_example =
    bulk_tag_dates-info_of limits servers [] parse (codes "org/app")
      (codes "1.0" ∷ codes "2.0" ∷ []) no_memo (codes "2.0")

nested_name : harbor_repo_path (codes "team/app") ≡ codes "team%252Fapp"
unfolding harbor_repo_path
nested_name = refl

abbrev at_host : Text → Location
at_host host = record { scheme = codes "https"; host = host }

followed : is_followed (at_host (codes "b")) (at_host (codes "a") ∷ []) ≡ true
unfolding check_redirect_chain
followed = refl

first_secure : IsHttps (first_of (at_host (codes "b")) (at_host (codes "a") ∷ []))
unfolding first_of
first_secure = refl

is_followed-IsHttps_example :
    All IsHttps (at_host (codes "b") ∷ at_host (codes "a") ∷ [])
    × (length (at_host (codes "a") ∷ []) ≤ 5)
is_followed-IsHttps_example =
    is_followed-IsHttps (at_host (codes "b")) (at_host (codes "a") ∷ []) followed first_secure
