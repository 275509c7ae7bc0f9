-- ===== src/Plan/Invariant/Ledger.antt =====
-- Laws of the completion ledger and of sets of step ids.
use local_coding_agent_harne.Prelude.{
  ◌≡◌, refl, sym, ◌∙◌, true, false, ◌||◌, some, List, [], ◌∷◌, Text, text_eq, text_eq_iff,
  text_eq_refl, contains, all_of, is_nil, if◌then◌else◌, arith, inl, inr, Bool-cases,
}
use local_coding_agent_harne.Plan.Models.{Ledger, lookup, insert, keys}
use local_coding_agent_harne.Plan.Validation.{is_ledger_entry, same_set, is_fingerprint}

pub lookup-insert :
    (k j v : Text) (l : Ledger)
    → lookup j (insert k v l) ≡ (if text_eq k j then some v else lookup j l)
unfolding lookup insert
lookup-insert k j v [] = refl
lookup-insert k j v ((i, w) ∷ l) =
    ground (arith, text_eq_iff k j, text_eq_iff i k, text_eq_iff i j, lookup-insert k j v l)

pub contains-keys-insert :
    (k j v : Text) (l : Ledger)
    → contains j (keys (insert k v l)) ≡ (text_eq j k || contains j (keys l))
unfolding insert contains
contains-keys-insert k j v [] = refl
contains-keys-insert k j v ((i, w) ∷ l) =
    ground (arith, text_eq_iff j k, text_eq_iff i k, text_eq_iff j i, contains-keys-insert k j v l)

pub insert-entries :
    (k v : Text) (l : Ledger)
    → is_nil k ≡ false
    → is_fingerprint v ≡ true
    → all_of is_ledger_entry l ≡ true
    → all_of is_ledger_entry (insert k v l) ≡ true
unfolding insert
insert-entries k v [] h f a = rw (h, f)
insert-entries k v ((j, w) ∷ l) h f a = elim (Bool-cases (text_eq j k)) [
  | inl e ↦ rw (e, f) (ground (arith, a))
  | inr e ↦ rw e (ground (arith, insert-entries k v l h f))
]

subset_intro :
    (xs ys : List Text)
    → ((k : Text) → contains k xs ≡ true → contains k ys ≡ true)
    → all_of (λ x. contains x ys) xs ≡ true
unfolding contains
subset_intro [] ys h = refl
subset_intro (x ∷ xs) ys h =
    ground (arith, text_eq_refl x, h x, subset_intro xs ys (λ k m. h k (ground arith)))

subset_elim :
    (xs ys : List Text) (k : Text)
    → all_of (λ x. contains x ys) xs ≡ true
    → contains k xs ≡ true
    → contains k ys ≡ true
unfolding contains
subset_elim [] ys k h m = ground arith
subset_elim (x ∷ xs) ys k h m = elim (Bool-cases (text_eq k x)) [
  | inl e ↦ rw ((text_eq_iff k x).0 e) (ground arith)
  | inr e ↦ subset_elim xs ys k (ground arith) (ground arith)
]

pub same_set_intro :
    (xs ys : List Text) → ((k : Text) → contains k xs ≡ contains k ys) → same_set xs ys ≡ true
same_set_intro xs ys h =
    rw (subset_intro xs ys (λ k m. sym (h k) ∙ m), subset_intro ys xs (λ k m. h k ∙ m))

pub same_set_elim :
    (xs ys : List Text) (k : Text) → same_set xs ys ≡ true → contains k xs ≡ contains k ys
same_set_elim xs ys k h = ground (arith, subset_elim xs ys k, subset_elim ys xs k)
