-- ===== src/Prelude/Strings.antt =====
-- More operations of Python's `str` and `list`, on texts.
use Prim.Native.Nat.{ℕ}
use mathlib.Core.Bool.{Bool, true, false, ◌&&◌, ◌||◌}
use mathlib.Core.List.{List, [], ◌∷◌, ◌++◌, reverse}
use local_coding_agent_harne.Prelude.Tests.{leb, ◌==◌, if◌then◌else◌}
use local_coding_agent_harne.Prelude.Lists.{is_nil}
use local_coding_agent_harne.Prelude.Texts.{Text, is_space, contains}

-- `text.startswith(prefix)`
unfoldable pub is_prefix : Text → Text → Bool
is_prefix [] text = true
is_prefix (p ∷ prefix) [] = false
is_prefix (p ∷ prefix) (c ∷ text) = p == c && is_prefix prefix text

-- `part in text`
unfoldable pub is_infix : Text → Text → Bool
is_infix part [] = is_nil part
is_infix part (c ∷ text) = is_prefix part (c ∷ text) || is_infix part text

unfoldable pub drop_of : (ℕ → Bool) → Text → Text
drop_of test [] = []
drop_of test (c ∷ text) = let rest = drop_of test text in if test c then rest else c ∷ text

-- `text.rstrip(chars)` and `text.strip(chars)`
unfoldable pub rstrip_of : (ℕ → Bool) → Text → Text
rstrip_of test text = reverse (drop_of test (reverse text))

abbrev pub strip_of : (ℕ → Bool) → Text → Text
strip_of test text = rstrip_of test (drop_of test text)

abbrev pub word_or : Text → List Text → List Text
word_or [] words = words
word_or (c ∷ word) words = (c ∷ word) ∷ words

-- `text.split()`; `word` is what the current word has so far.
unfoldable pub split_from : Text → Text → List Text
split_from word [] = word_or word []
split_from word (c ∷ text) =
    let apart = word_or word (split_from [] text) in
    let inside = split_from (word ++ c ∷ []) text in if is_space c then apart else inside

abbrev pub split_words : Text → List Text
split_words text = split_from [] text

-- `separator.join(parts)`
unfoldable pub join : Text → List Text → Text
join separator [] = []
join separator (part ∷ []) = part
join separator (part ∷ next ∷ parts) = part ++ separator ++ join separator (next ∷ parts)

-- `text.rsplit(char, 1)[-1]`: what follows the last `char`; `kept` is the part since the one before.
unfoldable pub after_last : ℕ → Text → Text → Text
after_last char kept [] = kept
after_last char kept (c ∷ text) = after_last char (if c == char then [] else kept ++ c ∷ []) text

-- `list(dict.fromkeys(values))`: each value once, in the order of the first occurrences.
unfoldable pub unique_from : List Text → List Text → List Text
unique_from seen [] = []
unique_from seen (value ∷ values) =
    let again = unique_from seen values in
    let new = value ∷ unique_from (value ∷ seen) values in
    if contains value seen then again else new

abbrev pub unique : List Text → List Text
unique values = unique_from [] values

-- `str.splitlines`: the characters that end a line; "\r\n" ends one.
abbrev pub is_line_end : ℕ → Bool
is_line_end c =
    (leb 10 c && leb c 13) || (leb 28 c && leb c 30) || c == 0x85 || c == 0x2028 || c == 0x2029

-- `after_return` says that the last character was the end of a line, "\r".
unfoldable pub lines_from : Bool → Text → Text → List Text
lines_from after_return line [] = word_or line []
lines_from after_return line (c ∷ text) =
    let skip = lines_from false line text in
    let end = line ∷ lines_from (c == 13) [] text in
    let inside = lines_from false (line ++ c ∷ []) text in
    if after_return && c == 10 then skip else if is_line_end c then end else inside

abbrev pub splitlines : Text → List Text
splitlines text = lines_from false [] text
