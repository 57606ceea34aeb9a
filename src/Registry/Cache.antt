-- ===== src/Registry/Cache.antt =====
-- internal/registry/registry.go: the memoized look-ups of one scan. The concurrent callers of one
-- key share a fetch, so a store sees them as one after another.
pub mod Laws
use yk_update_checker.Prelude.{
  List, Bool, ◌++◌, false, if◌then◌else◌, Option, some, ◌∷◌, none, ◌||◌, true, [],
}
use yk_update_checker.Errkind.{Failure, is_canceled, is_deadline}
use yk_update_checker.Text.{Text, text_eq, codes}

-- The outcome of a fetch, `cached[V]`: a value, or an error.
pub data Fetched (V : Type 0) : Type 0 where
  value : V → Fetched V
  error : Failure → Fetched V

-- The key of the single-flight group and of the store.
abbrev pub qualified : Text → Text → Text
qualified store_name key = store_name ++ codes "|" ++ key

module _ {V : Type 0} where
  -- `fresh`: the memoized outcome for a key, if any
  unfoldable pub fresh : List (Text × Fetched V) → Text → Option (Fetched V)
  unfolding text_eq
  fresh [] k = none
  fresh ((j, o) ∷ store) k = if text_eq j k then some o else fresh store k

  -- An interrupted fetch says nothing about the registry.
  abbrev pub is_interrupted : Fetched V → Bool
  is_interrupted (value v) = false
  is_interrupted (error e) = is_canceled e || is_deadline e

  unfoldable pub fetch_into : List (Text × Fetched V) → Text → Fetched V → List (Text × Fetched V)
  unfolding is_canceled is_deadline
  fetch_into store k o = if is_interrupted o then store else (k, o) ∷ store

  -- `getOrDo`: `fetched` is what `fetch` returns if it is called; the flag says that it is.
  unfoldable pub get_or_do :
      Text → List (Text × Fetched V) → Text → Fetched V → Fetched V × List (Text × Fetched V) × Bool
  unfolding fresh fetch_into
  get_or_do store_name store key fetched =
      let k = qualified store_name key in
      elim (fresh store k) [
        | some o ↦ (o, store, false)
        | none ↦ (fetched, fetch_into store k fetched, true)
      ]
