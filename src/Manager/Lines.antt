-- ===== src/Manager/Lines.antt =====
-- The lines of the environment file: sorted, and without the keys that are the daemon's own.
use ubuntu_daemon.Base.{
  ◌≡◌, refl, ap, ◌∙◌, Bool, true, false, ◌&&◌, ◌||◌, not, none, some, List, [], ◌∷◌, arith, Text,
  Bool-cases, inl, inr,
}
use ubuntu_daemon.Text.{text_eq, text_eq_iff, contains_text}
use ubuntu_daemon.Manager.{
  Values, find, is_daemon_only_config_key, effective, env_keys, text_le, insert_key, sort_keys,
}

text_le-total : (s t : Text) → text_le s t ≡ false → text_le t s ≡ true
unfolding text_le
text_le-total [] t h = absurd (cc)
text_le-total (c ∷ s) [] h = refl
text_le-total (c ∷ s) (d ∷ t) h = ground (arith, text_le-total s t)

-- Each text is at most the next one.
abbrev pub IsSorted : List Text → Type 0
IsSorted [] = Unit
IsSorted (k ∷ []) = Unit
IsSorted (k ∷ l ∷ ls) = (text_le k l ≡ true) × IsSorted (l ∷ ls)

insert_key-IsSorted : (k : Text) (ls : List Text) → IsSorted ls → IsSorted (insert_key k ls)
unfolding insert_key
insert_key-IsSorted k [] h = tt
insert_key-IsSorted k (l ∷ []) h = elim (Bool-cases (text_le k l)) [
  | inl le ↦ rw (le, insert_key) (le, tt)
  | inr gt ↦ rw (gt, insert_key) (text_le-total k l gt, tt)
]
insert_key-IsSorted k (l ∷ m ∷ ms) (lm, h) = elim (Bool-cases (text_le k l)) [
  | inl le ↦ rw (le, insert_key) (le, (lm, h))
  | inr gt ↦ elim (Bool-cases (text_le k m)) [
    | inl le ↦ rw (gt, insert_key) (rw (le, insert_key) (text_le-total k l gt, (le, h)))
    | inr after_m ↦
        rw (gt, insert_key)
          (rw (after_m, insert_key)
            (lm, (rw (after_m, insert_key) at (insert_key-IsSorted k (m ∷ ms) h))))
  ]
]

sort_keys-IsSorted : (ks : List Text) → IsSorted (sort_keys ks)
unfolding sort_keys
sort_keys-IsSorted [] = tt
sort_keys-IsSorted (k ∷ ks) = insert_key-IsSorted k (sort_keys ks) (sort_keys-IsSorted ks)

contains-insert_key :
    (k q : Text) (ls : List Text)
    → contains_text (insert_key k ls) q ≡ (text_eq k q || contains_text ls q)
unfolding insert_key contains_text
contains-insert_key k q [] = refl
contains-insert_key k q (l ∷ ls) = ground (arith, contains-insert_key k q ls)

contains-sort_keys :
    (q : Text) (ks : List Text) → contains_text (sort_keys ks) q ≡ contains_text ks q
unfolding sort_keys contains_text
contains-sort_keys q [] = refl
contains-sort_keys q (k ∷ ks) =
    contains-insert_key k q (sort_keys ks)
    ∙ ap (λ (b : Bool). text_eq k q || b) (contains-sort_keys q ks)

abbrev pub has_key : Values → Text → Bool
has_key vs q = elim (find vs q) [ some v ↦ true | none ↦ false ]

contains-env_keys :
    (vs : Values) (q : Text)
    → contains_text (env_keys vs) q ≡ (has_key vs q && not (is_daemon_only_config_key q))
unfolding env_keys contains_text find
contains-env_keys [] q = refl
contains-env_keys ((k, v) ∷ vs) q = elim (Bool-cases (text_eq k q)) [
  | inl same ↦
      let e : is_daemon_only_config_key k ≡ is_daemon_only_config_key q =
        ap (λ (s : Text). is_daemon_only_config_key s) ((text_eq_iff k q).0 same) in
      ground (arith, contains-env_keys vs q)
  | inr other ↦ ground (arith, contains-env_keys vs q)
]

-- The keys of the file's lines are in order, and a key is among them exactly if it has a value,
-- one that was sent or a fallback, and is not one of those that only the daemon reads.
pub env_keys_lem :
    (values : Values) (q : Text)
    → IsSorted (sort_keys (env_keys (effective values)))
      × (contains_text (sort_keys (env_keys (effective values))) q
          ≡ (has_key (effective values) q && not (is_daemon_only_config_key q)))
env_keys_lem values q = (
  sort_keys-IsSorted (env_keys (effective values)),
  contains-sort_keys q (env_keys (effective values)) ∙ contains-env_keys (effective values) q,
)
