-- ===== src/Tools/EditFile/Search.antt =====
-- `str.find` and `str.count` (src/tools/edit_file.py), and what they find.
use local_coding_agent_harne.Prelude.{
  ℕ, zero, suc, ◌+◌, ◌-◌, ◌≤◌, ◌≡◌, refl, sym, ap, ◌∙◌, subst, true, false, some, [], ◌∷◌, ◌++◌,
  length, drop, drop-nil, drop-pred, is_nil, is_prefix, Text, arith, Bool-cases, Option-cases, inl,
  inr,
}
use local_coding_agent_harne.Tools.EditFile.{count_from, count, find}

-- `old` stands in the text at the index.
abbrev pub StandsAt : Text → Text → ℕ → Type 0
StandsAt old text n = old ++ drop (n + length old) text ≡ drop n text

prefix-drop : (old text : Text) → is_prefix old text ≡ true → old ++ drop (length old) text ≡ text
unfolding is_prefix
prefix-drop [] text h = refl
prefix-drop (p ∷ old) [] h = ground arith
prefix-drop (p ∷ old) (c ∷ text) h = ground (arith, prefix-drop old text)

pub find-some : (old text : Text) (n : ℕ) → find old text ≡ some n → StandsAt old text n
unfolding find is_prefix
find-some [] [] n h = let e : 0 ≡ n = ground arith in subst (StandsAt [] []) e (drop-nil (0 + 0))
find-some (p ∷ old) [] n h = ground arith
find-some old (c ∷ text) n h = elim (Bool-cases (is_prefix old (c ∷ text))) [
  | inl p ↦
      let e : 0 ≡ n = ground arith in
      subst (StandsAt old (c ∷ text)) e
        (ap (λ k. old ++ drop k (c ∷ text)) (omega arith) ∙ prefix-drop old (c ∷ text) p)
  | inr p ↦ elim (Option-cases (find old text)) [
    | inl f ↦ absurd (ground arith)
    | inr (m, f) ↦
        let e : suc m ≡ n = ground arith in
        let l : suc m + length old ≡ suc (m + length old) = omega arith in
        subst (StandsAt old (c ∷ text)) e
          (ap (λ k. old ++ drop k (c ∷ text)) l ∙ find-some old text m f)
  ]
]

-- A text with a match has a first one, and one match less behind it.
count-skip :
    (old : Text) (skip : ℕ) (text : Text) → count_from old skip text ≡ count old (drop skip text)
unfolding count_from
count-skip old zero text = refl
count-skip old (suc skip) [] = refl
count-skip old (suc skip) (c ∷ text) = count-skip old skip text

full-length : (old : Text) → is_nil old ≡ false → 1 ≤ length old
full-length [] e = ground arith
full-length (c ∷ old) e = omega arith

pub count-find :
    (old text : Text) (k : ℕ)
    → is_nil old ≡ false
    → count old text ≡ suc k
    → (n : ℕ) × (find old text ≡ some n)
      × (count old (drop n text) ≡ suc k)
      × (count old (drop (n + length old) text) ≡ k)
unfolding find count_from is_prefix
count-find old [] k e h = absurd (ground arith)
count-find old (c ∷ text) k e h = elim (Bool-cases (is_prefix old (c ∷ text))) [
  | inl p ↦
      let l : length old ≡ 0 + length old = omega arith in
      (
        0,
        rw p refl,
        h,
        ap (count old) (
              ap (λ n. drop n (c ∷ text)) (sym l)
              ∙ sym (drop-pred (length old) c text (full-length old e)))
            ∙ sym (count-skip old (length old - 1) text)
            ∙ ground arith,
      )
  | inr p ↦
      let (n, f, here, behind) = count-find old text k e (ground arith) in
      let s : suc n + length old ≡ suc (n + length old) = omega arith in
      (suc n, rw (p, f, find) refl, here, ap (λ m. count old (drop m (c ∷ text))) s ∙ behind)
]
