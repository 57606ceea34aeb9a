-- ===== src/Gitsync/Shell.antt =====
-- A POSIX shell reads the ssh command as the arguments it is made of, whatever the paths are.
use mathlib.Core.List.{append-nil, append_assoc}
use yk_update_checker.Prelude.{
  none, some, inl, inr, Option, ℕ, List, ◌++◌, ◌∷◌, Bool, ◌≡◌, [], ◌||◌, ap, if◌then◌else◌, sym,
  ◌==◌, Bool-cases, ◌∙◌, ==_iff, Option-cases, ◌⊎◌, false, ◌≢◌, true,
}
use yk_update_checker.Text.{Text, codes, is_letter, is_digit, is_nil}
use yk_update_checker.Config.Repos.{RepoAuth}
use yk_update_checker.Errkind.{Failure}
use yk_update_checker.Gitsync.Env.{System, shell_quote, quote_rest, ssh_command, ssh_base}

-- Where a shell is in a command: outside quotes, inside single quotes, or behind a backslash.
pub data Mode : Type 0 where
  outside inside escaped : Mode

-- The word that has begun, in front of those that follow.
abbrev flush : Option Text → Option (List Text) → Option (List Text)
flush none ws = ws
flush (some w) none = none
flush (some w) (some ws) = some (w ∷ ws)

abbrev begun : Option Text → Text
begun none = []
begun (some w) = w

-- The characters that mean themselves outside quotes; with any other the shell does more.
abbrev is_plain : ℕ → Bool
is_plain c =
    is_letter c || is_digit c || c == b'-' || c == b'=' || c == b'.' || c == b'/' || c == b'_'

words_from : Mode → Option Text → Text → Option (List Text)
words_from outside w [] = flush w (some [])
words_from inside w [] = none
words_from escaped w [] = none
words_from outside w (c ∷ s) =
    let ended = flush w (words_from outside none s) in
    let opened = words_from inside (some (begun w)) s in
    let next = words_from escaped w s in
    let longer = words_from outside (some (begun w ++ c ∷ [])) s in
    if c == b' '
    then ended
    else if c == b'\''
    then opened
    else if c == b'\\'
    then next
    else if is_plain c
    then longer
    else none
words_from inside w (c ∷ s) =
    let closed = words_from outside w s in
    let longer = words_from inside (some (begun w ++ c ∷ [])) s in
    if c == b'\'' then closed else longer
words_from escaped w (c ∷ s) = words_from outside (some (begun w ++ c ∷ [])) s

-- The words of a command that a shell runs with nothing expanded; `none` if there is more to it.
unfoldable pub shell_words : Text → Option (List Text)
unfolding words_from
shell_words s = words_from outside none s

words_from-quote_rest :
    (w s t : Text)
    → words_from inside (some w) (quote_rest s ++ t) ≡ words_from outside (some (w ++ s)) t
unfolding words_from quote_rest
words_from-quote_rest w [] t = ap (λ v. words_from outside (some v) t) (sym (append-nil w))
words_from-quote_rest w (c ∷ s) t = elim (Bool-cases (c == b'\'')) [
  | inl e ↦ rw e (
      words_from-quote_rest (w ++ b'\'' ∷ []) s t
      ∙ ap (λ v. words_from outside (some v) t)
          (append_assoc w (b'\'' ∷ []) s ∙ ap (λ d. w ++ d ∷ s) (sym ((==_iff c b'\'').0 e))))
  | inr e ↦
      rw (e, e)
        (words_from-quote_rest (w ++ c ∷ []) s t
          ∙ ap (λ v. words_from outside (some v) t) (append_assoc w (c ∷ []) s))
]

-- The arguments that the command is made of.
abbrev pub ssh_arguments_with : RepoAuth → List Text → List Text
ssh_arguments_with a rest =
    codes "ssh"
    ∷ codes "-i"
    ∷ a.ssh_key_path
    ∷ codes "-o"
    ∷ codes "IdentitiesOnly=yes"
    ∷ codes "-o"
    ∷ codes "BatchMode=yes"
    ∷ rest

-- How the host is verified: by the first key it shows, or by the file.
abbrev pub host_key_arguments : Bool → Text → List Text
host_key_arguments true file = codes "-o" ∷ codes "StrictHostKeyChecking=accept-new" ∷ []
host_key_arguments false file =
    codes "-o"
    ∷ (codes "UserKnownHostsFile=" ++ file)
    ∷ codes "-o"
    ∷ codes "StrictHostKeyChecking=yes"
    ∷ []

abbrev pub ssh_arguments : RepoAuth → List Text
ssh_arguments a =
    ssh_arguments_with a (host_key_arguments (is_nil a.known_hosts_file) a.known_hosts_file)

abbrev in_front : List Text → Option (List Text) → Option (List Text)
in_front [] ws = ws
in_front (w ∷ l) ws = flush (some w) (in_front l ws)

words_from-ssh_base :
    (a : RepoAuth) (t : Text)
    → words_from outside none (ssh_base a ++ b' ' ∷ t)
      ≡ in_front
          (codes "ssh"
            ∷ codes "-i"
            ∷ a.ssh_key_path
            ∷ codes "-o"
            ∷ codes "IdentitiesOnly=yes"
            ∷ codes "-o"
            ∷ codes "BatchMode=yes"
            ∷ [])
          (words_from outside none t)
unfolding words_from shell_quote
words_from-ssh_base a t =
    ap (λ s. in_front (codes "ssh" ∷ codes "-i" ∷ []) (words_from inside (some []) s))
      (append_assoc (quote_rest a.ssh_key_path) (codes " -o IdentitiesOnly=yes -o BatchMode=yes")
        (b' ' ∷ t))
    ∙ ap (in_front (codes "ssh" ∷ codes "-i" ∷ [])) (
        words_from-quote_rest [] a.ssh_key_path
          (codes " -o IdentitiesOnly=yes -o BatchMode=yes" ++ b' ' ∷ t))

words_from-accept_new :
    (a : RepoAuth)
    → shell_words (ssh_base a ++ codes " -o StrictHostKeyChecking=accept-new")
      ≡ some (ssh_arguments_with a (codes "-o" ∷ codes "StrictHostKeyChecking=accept-new" ∷ []))
unfolding shell_words words_from
words_from-accept_new a = words_from-ssh_base a (codes "-o StrictHostKeyChecking=accept-new")

words_from-known_hosts :
    (a : RepoAuth) (file : Text)
    → shell_words (
        ssh_base a
        ++ (codes " -o UserKnownHostsFile="
            ++ (shell_quote file ++ codes " -o StrictHostKeyChecking=yes")))
      ≡ some (
          ssh_arguments_with a (
            codes "-o"
            ∷ (codes "UserKnownHostsFile=" ++ file)
            ∷ codes "-o"
            ∷ codes "StrictHostKeyChecking=yes"
            ∷ []))
unfolding shell_words words_from shell_quote
words_from-known_hosts a file =
    words_from-ssh_base a (
      codes "-o UserKnownHostsFile=" ++ (shell_quote file ++ codes " -o StrictHostKeyChecking=yes"))
    ∙ ap (λ ws. in_front (ssh_arguments_with a (codes "-o" ∷ [])) ws)
        (words_from-quote_rest (codes "UserKnownHostsFile=") file
          (codes " -o StrictHostKeyChecking=yes"))

-- A refusal, of a host key file that cannot be read; or a command whose words are the arguments.
abbrev pub IsReadBack : System → RepoAuth → Failure ⊎ Text → Type 0
IsReadBack sys a (inl e) =
    (is_nil a.known_hosts_file ≡ false) × (sys.stat a.known_hosts_file ≢ none)
IsReadBack sys a (inr cmd) =
    (shell_words cmd ≡ some (ssh_arguments a))
    × ((is_nil a.known_hosts_file ≡ true) ⊎ (sys.stat a.known_hosts_file ≡ none))

-- The command built.
pub ssh_command-IsReadBack : (sys : System) (a : RepoAuth) → IsReadBack sys a (ssh_command sys a)
unfolding ssh_command
ssh_command-IsReadBack sys a = elim (Bool-cases (is_nil a.known_hosts_file)) [
  | inl e ↦ rw e (
    words_from-accept_new a
        ∙ ap (λ b. some (ssh_arguments_with a (host_key_arguments b a.known_hosts_file))) (sym e),
    inl e,
  )
  | inr e ↦ rw e (elim (Option-cases (sys.stat a.known_hosts_file)) [
    | inl s ↦ rw s (
      words_from-known_hosts a a.known_hosts_file
          ∙ ap (λ b. some (ssh_arguments_with a (host_key_arguments b a.known_hosts_file))) (sym e),
      inr s,
    )
    | inr (f, s) ↦ rw s (e, λ k. cc (k))
  ])
]
