-- ===== src/Registry/Cache/Laws.antt =====
-- What the cache promises over a series of look-ups.
use yk_update_checker.Prelude.{
  List, ◌≡◌, false, none, some, refl, Option-cases, arith, Bool-cases, true, inl, inr, ◌∷◌, [],
}
use yk_update_checker.Text.{Text, text_eq, text_eq_refl, text_eq_iff}
use yk_update_checker.Registry.Cache.{
  Fetched, fresh, get_or_do, is_interrupted, qualified, fetch_into,
}

module _ {V : Type 0} (store_name : Text) where
  -- A look-up of a key that has an entry.
  pub get_or_do-hit :
      (store : List (Text × Fetched V)) (key : Text) (o fetched : Fetched V)
      → fresh store (qualified store_name key) ≡ some o
      → get_or_do store_name store key fetched ≡ (o, store, false)
  unfolding get_or_do
  get_or_do-hit store key o fetched h = rw (h, get_or_do) refl

  pub get_or_do-miss :
      (store : List (Text × Fetched V)) (key : Text) (fetched : Fetched V)
      → fresh store (qualified store_name key) ≡ none
      → get_or_do store_name store key fetched
        ≡ (fetched, fetch_into store (qualified store_name key) fetched, true)
  unfolding get_or_do
  get_or_do-miss store key fetched h = rw (h, get_or_do) refl

  fetch_into-fresh_self :
      (store : List (Text × Fetched V)) (k : Text) (o : Fetched V)
      → is_interrupted o ≡ false
      → fresh (fetch_into store k o) k ≡ some o
  unfolding fetch_into fresh
  fetch_into-fresh_self store k o h = ground (arith, text_eq_refl k)

  pub fetch_into-fresh :
      (store : List (Text × Fetched V)) (j k : Text) (o p : Fetched V)
      → fresh store j ≡ none
      → fresh store k ≡ some p
      → fresh (fetch_into store j o) k ≡ some p
  unfolding fetch_into fresh
  fetch_into-fresh store j k o p miss hit = elim (Bool-cases (text_eq j k)) [
    | inl e ↦ absurd (cc (rw (← (text_eq_iff j k).0 e) at hit))
    | inr e ↦ elim (Bool-cases (is_interrupted o)) [
      | inl i ↦ rw i hit
      | inr i ↦ rw (i, fresh) (rw e hit)
    ]
  ]

  -- An entry stays as it is, whatever is looked up.
  get_or_do-fresh :
      (store : List (Text × Fetched V)) (j k : Text) (fetched p : Fetched V)
      → fresh store k ≡ some p
      → fresh (get_or_do store_name store j fetched).1 k ≡ some p
  get_or_do-fresh store j k fetched p hit =
      elim (Option-cases (fresh store (qualified store_name j))) [
        | inl miss ↦
            rw (get_or_do-miss store j fetched miss)
              (fetch_into-fresh store (qualified store_name j) k fetched p miss hit)
        | inr (o, there) ↦ rw (get_or_do-hit store j o fetched there) hit
      ]

  -- The store after a series of look-ups, each with what its fetch would return.
  unfoldable pub look_up_all :
      List (Text × Fetched V) → List (Text × Fetched V) → List (Text × Fetched V)
  look_up_all store [] = store
  look_up_all store ((key, fetched) ∷ rest) =
      look_up_all (get_or_do store_name store key fetched).1 rest

  look_up_all-fresh :
      (lookups store : List (Text × Fetched V)) (k : Text) (p : Fetched V)
      → fresh store k ≡ some p
      → fresh (look_up_all store lookups) k ≡ some p
  unfolding look_up_all
  look_up_all-fresh [] store k p h = h
  look_up_all-fresh ((key, fetched) ∷ rest) store k p h =
      look_up_all-fresh rest _ k p (get_or_do-fresh store key k fetched p h)

  get_or_do-remembers :
      (store : List (Text × Fetched V)) (key : Text) (fetched : Fetched V)
      → is_interrupted (get_or_do store_name store key fetched).0 ≡ false
      → fresh (get_or_do store_name store key fetched).1 (qualified store_name key)
        ≡ some (get_or_do store_name store key fetched).0
  get_or_do-remembers store key fetched h =
      elim (Option-cases (fresh store (qualified store_name key))) [
        | inl miss ↦
            let e = get_or_do-miss store key fetched miss in
            rw e (fetch_into-fresh_self store (qualified store_name key) fetched (rw e at h))
        | inr (o, there) ↦ rw (get_or_do-hit store key o fetched there) there
      ]

  -- Once a look-up of a key was answered with a value or with an error that is no interruption, then
  -- after any series of look-ups of any keys the same key gets the same answer, with no fetch and
  -- with the store left alone.
  pub get_or_do-get_or_do :
      (store lookups : List (Text × Fetched V)) (key : Text) (first second : Fetched V)
      → is_interrupted (get_or_do store_name store key first).0 ≡ false
      → get_or_do store_name
          (look_up_all (get_or_do store_name store key first).1 lookups)
          key
          second
        ≡ (
          (get_or_do store_name store key first).0,
          look_up_all (get_or_do store_name store key first).1 lookups,
          false,
        )
  get_or_do-get_or_do store lookups key first second h =
      get_or_do-hit _ key (get_or_do store_name store key first).0 second (
        look_up_all-fresh lookups _ (qualified store_name key) _
          (get_or_do-remembers store key first h))

  -- An interrupted fetch for a key without an entry leaves none behind: the next look-up of the key
  -- fetches again.
  pub get_or_do_interrupted :
      (store : List (Text × Fetched V)) (key : Text) (first second : Fetched V)
      → fresh store (qualified store_name key) ≡ none
      → is_interrupted first ≡ true
      → (get_or_do store_name (get_or_do store_name store key first).1 key second).0 ≡ second
  unfolding fetch_into
  get_or_do_interrupted store key first second miss h =
      rw (get_or_do-miss store key first miss)
        (rw h (rw (get_or_do-miss store key second miss) refl))
