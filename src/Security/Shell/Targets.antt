-- ===== src/Security/Shell/Targets.antt =====
-- The word behind a redirection (src/runtime/security/shell_analysis.py).
use local_coding_agent_harne.Prelude.{
  ◌≡◌, refl, ap, ◌∙◌, Bool, true, false, not, ◌&&◌, ◌==◌, ℕ, Option, some, [], ◌∷◌, ◌++◌, Text,
  codes, is_nil, is_space, is_prefix, all_of, arith, if◌then◌else◌,
}
use local_coding_agent_harne.Security.Shell.{
  unquoted, is_quote, is_inert, next_quoting, clean_path, Cursor, is_word_end, read_word,
  skip_spaces, after_operator, redirection,
}

-- A character that is part of a word: no white space, operator, quote or backslash.
abbrev pub is_plain : ℕ → Bool
is_plain c = not (is_word_end c) && not (is_quote c) && not (c == 92)

abbrev pub ends_word : Text → Bool
ends_word [] = true
ends_word (c ∷ rest) = is_word_end c

plain-stays :
    (c : ℕ)
    → is_plain c ≡ true
    → (is_inert unquoted c ≡ false) × (next_quoting unquoted c ≡ unquoted)
unfolding is_inert next_quoting
plain-stays c h = ground arith

end-inert : (c : ℕ) → is_word_end c ≡ true → is_inert unquoted c ≡ false
unfolding is_inert
end-inert c h = ground arith

read_word-plain :
    (last : Option ℕ) (word rest : Text)
    → all_of is_plain word ≡ true
    → ends_word rest ≡ true
    → (read_word unquoted last (word ++ rest)).0 ≡ word
unfolding read_word
read_word-plain last [] [] h e = refl
read_word-plain last [] (c ∷ rest) h e = ground (arith, end-inert c)
read_word-plain last (c ∷ word) rest h e =
    let (i, n) = plain-stays c (ground arith) in
    ground (arith, read_word-plain (some c) word rest, i, n)

skip_spaces-all :
    (cursor : Cursor) (spaces word : Text) (c : ℕ)
    → all_of is_space spaces ≡ true
    → is_space c ≡ false
    → (skip_spaces cursor (spaces ++ c ∷ word)).rest ≡ c ∷ word
unfolding skip_spaces
skip_spaces-all cursor [] word c h e = ground arith
skip_spaces-all cursor (s ∷ spaces) word c h e =
    ground
      (arith, skip_spaces-all (record { last = some s; rest = spaces ++ c ∷ word }) spaces word c)

-- Behind `>`: perhaps a second `>`, white space, a word that names a path, and what ends it.
pub record NamesPath (lower : Text → Text) (text target : Text) : Type 0 where
  pub appends : Bool
  pub spaces : Text
  pub word : Text
  pub rest : Text
  pub whole : text ≡ (if appends then codes ">" else []) ++ (spaces ++ (word ++ rest))
  pub blank : all_of is_space spaces ≡ true
  pub nonempty : is_nil word ≡ false
  pub plain : all_of is_plain word ≡ true
  pub ends : ends_word rest ≡ true
  pub path : clean_path lower word ≡ some target

after_operator-rest :
    (appends : Bool) (spaces rest : Text) (c : ℕ)
    → all_of is_space spaces ≡ true
    → is_plain c ≡ true
    → (after_operator ((if appends then codes ">" else []) ++ (spaces ++ c ∷ rest))).rest
      ≡ spaces ++ c ∷ rest
after_operator-rest true spaces rest c h p = refl
after_operator-rest false [] rest c h p = ground arith
after_operator-rest false (s ∷ spaces) rest c h p = ground arith

and-first : (a b : Bool) → (a && b) ≡ true → a ≡ true
and-first a b h = ground arith

redirection-read :
    (lower : Text → Text) (text word rest : Text) (c : ℕ)
    → (skip_spaces (after_operator text) (after_operator text).rest).rest ≡ c ∷ (word ++ rest)
    → all_of is_plain (c ∷ word) ≡ true
    → ends_word rest ≡ true
    → (redirection lower text).0 ≡ clean_path lower (c ∷ word)
unfolding redirection is_prefix
redirection-read lower text word rest c h p e =
    let start = skip_spaces (after_operator text) (after_operator text).rest in
    let w : (read_word unquoted (start.last) (start.rest)).0 ≡ c ∷ word =
      rw h (read_word-plain (start.last) (c ∷ word) rest p e) in
    ground (arith, h, w)

plain-visible : (c : ℕ) → is_plain c ≡ true → is_space c ≡ false
plain-visible c h = ground arith

head-plain : (c : ℕ) (word : Text) → all_of is_plain (c ∷ word) ≡ true → is_plain c ≡ true
head-plain c word h = and-first (is_plain c) (all_of is_plain word) h

after_spaces :
    (cursor : Cursor) (spaces word : Text) (c : ℕ)
    → cursor.rest ≡ spaces ++ c ∷ word
    → all_of is_space spaces ≡ true
    → is_plain c ≡ true
    → (skip_spaces cursor cursor.rest).rest ≡ c ∷ word
after_spaces cursor spaces word c e b p =
    ap (λ r. (skip_spaces cursor r).rest) e
    ∙ skip_spaces-all cursor spaces word c b (plain-visible c p)

redirection-word :
    (lower : Text → Text) (appends : Bool) (spaces word rest : Text)
    → all_of is_space spaces ≡ true
    → is_nil word ≡ false
    → all_of is_plain word ≡ true
    → ends_word rest ≡ true
    → (redirection lower ((if appends then codes ">" else []) ++ (spaces ++ (word ++ rest)))).0
      ≡ clean_path lower word
redirection-word lower appends spaces [] rest b n p e = ground arith
redirection-word lower appends spaces (c ∷ word) rest b n p e =
    let plain = head-plain c word p in
    let text = (if appends then codes ">" else []) ++ (spaces ++ (c ∷ (word ++ rest))) in
    let operator = after_operator-rest appends spaces (word ++ rest) c b plain in
    redirection-read lower text word rest c
      (after_spaces (after_operator text) spaces (word ++ rest) c operator b plain) p e

pub NamesPath-redirection :
    (lower : Text → Text) (text target : Text)
    → NamesPath lower text target
    → (redirection lower text).0 ≡ some target
NamesPath-redirection lower text target n =
    ap (λ t. (redirection lower t).0) n.whole
    ∙ redirection-word lower n.appends n.spaces n.word n.rest n.blank n.nonempty n.plain n.ends
    ∙ n.path
