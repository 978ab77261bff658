-- ===== src/Roots/Reading.antt =====
-- `load_roots` of src/lib.rs on a file of any lines: with a key, with none, with a comment.
use ce_pin.Prelude.{
  ◌≡◌, ◌≢◌, ◌==◌, ==_iff, refl, ap, ◌∙◌, false, Bool-cases, Option, none, some, inl, inr, ◌⊎◌, List,
  [], ◌∷◌, ◌++◌, map, length, All, append_assoc, append-nil, arith, if◌then◌else◌,
}
use ce_pin.Prelude.Text.{Text, is_empty, trim}
use ce_pin.Config.{EnvVars}
use ce_pin.Files.{Bytes}
use ce_pin.Paths.{roots_path}
use ce_pin.Audit.{Hashing}
use ce_pin.Roots.{
  lines, lines_from, strip_return, before_hash, key_of, line_root, roots_of, load_roots,
}

-- A line: a word, and after a `#` perhaps a note; and the key that it is meant to list.
pub record FileLine : Type 0 where
  pub key : Option Bytes
  pub word : Text
  pub note : Option Text

abbrev pub line_of : Text → Option Text → Text
line_of word none = word
line_of word (some note) = word ++ (b'#' ∷ note)

-- Each line ends in a line feed.
abbrev pub roots_text : List FileLine → Text
roots_text [] = []
roots_text (l ∷ ls) = line_of l.word l.note ++ (10 ∷ roots_text ls)

abbrev pub somes {ℓ} : {A : Type ℓ} → List (Option A) → List A
somes [] = []
somes (none ∷ xs) = somes xs
somes (some x ∷ xs) = x ∷ somes xs

-- The keys that the lines list.
abbrev pub keys_of : List FileLine → List Bytes
keys_of ls = somes (map (λ l. l.key) ls)

-- A word lists a key if it is, without the blanks around it, hexadecimal for 32 bytes, and lists none
-- if it is blank or anything else.
abbrev pub Names : Hashing → Option Bytes → Text → Type 0
Names hs (some key) word = (trim word ≢ []) × (hs.decode (trim word) ≡ some key) × (length key ≡ 32)
Names hs none word =
    (trim word ≡ []) ⊎ ((bytes : Bytes) → hs.decode (trim word) ≡ some bytes → length bytes ≢ 32)

abbrev OneLine : Text → Type 0
OneLine = All (λ c. (c ≢ 10) × (c ≢ 13))

pub record IsLine (hs : Hashing) (l : FileLine) : Type 0 where
  pub no_hash : All (λ c. c ≢ b'#') l.word
  pub one_line : All (λ c. (c ≢ 10) × (c ≢ 13)) (line_of l.word l.note)
  pub names : Names hs l.key l.word

lines_from-line :
    (line s rest : Text)
    → OneLine s
    → lines_from line (s ++ (10 ∷ rest)) ≡ strip_return (line ++ s) ∷ lines_from [] rest
unfolding lines_from
lines_from-line line [] rest h = rw (append-nil line) refl
lines_from-line line (c ∷ s) rest h =
    let more = lines_from-line (line ++ c ∷ []) s rest h.1 in
    let joined = append_assoc line (c ∷ []) s in ground (arith, more, joined, h.0)

strip_return-none : (s : Text) → OneLine s → strip_return s ≡ s
strip_return-none [] h = refl
strip_return-none (c ∷ []) h = ground (arith, h.0)
strip_return-none (c ∷ d ∷ s) h = ap (λ t. c ∷ t) (strip_return-none (d ∷ s) h.1)

before_hash-line :
    (word : Text) (note : Option Text)
    → All (λ c. c ≢ b'#') word
    → before_hash (line_of word note) ≡ word
unfolding before_hash
before_hash-line [] none h = refl
before_hash-line [] (some note) h = refl
before_hash-line (c ∷ word) none h = ground (arith, before_hash-line word none h.1, h.0)
before_hash-line (c ∷ word) (some note) h =
    ground (arith, before_hash-line word (some note) h.1, h.0)

is_empty-ne-nil : (s : Text) → s ≢ [] → is_empty s ≡ false
is_empty-ne-nil [] h = absurd (h refl)
is_empty-ne-nil (c ∷ s) h = refl

key_of-length : (key : Bytes) → length key ≡ 32 → key_of (some key) ≡ some key
key_of-length key h = ground (arith, h)

-- What is decoded is a key only with 32 bytes.
key_of-other :
    (decoded : Option Bytes)
    → ((bytes : Bytes) → decoded ≡ some bytes → length bytes ≢ 32)
    → key_of decoded ≡ none
key_of-other none h = refl
key_of-other (some bytes) h = elim (Bool-cases (length bytes == 32)) [
  | inl long ↦ absurd (h bytes refl ((==_iff (length bytes) 32).0 long))
  | inr other ↦ rw other refl
]

-- The key of a word.
abbrev word_root : Hashing → Text → Option Bytes
word_root hs word = if is_empty (trim word) then none else key_of (hs.decode (trim word))

word_root-Names :
    (hs : Hashing) (key : Option Bytes) (word : Text) → Names hs key word → word_root hs word ≡ key
word_root-Names hs (some key) word (present, decodes, long) =
    rw (is_empty-ne-nil (trim word) present, decodes) (key_of-length key long)
word_root-Names hs none word (inl blank) = rw blank refl
word_root-Names hs none word (inr other) = elim (Bool-cases (is_empty (trim word))) [
  | inl blank ↦ rw blank refl
  | inr present ↦ rw present (key_of-other (hs.decode (trim word)) other)
]

line_root-IsLine :
    (hs : Hashing) (l : FileLine) → IsLine hs l → line_root hs (line_of l.word l.note) ≡ l.key
unfolding line_root
line_root-IsLine hs l h =
    rw (before_hash-line l.word l.note h.no_hash) (word_root-Names hs l.key l.word h.names)

lines-line : (s rest : Text) → OneLine s → lines (s ++ (10 ∷ rest)) ≡ s ∷ lines rest
unfolding lines
lines-line s rest h =
    lines_from-line [] s rest h ∙ ap (λ t. t ∷ lines_from [] rest) (strip_return-none s h)

roots_of-line :
    (hs : Hashing) (line : Text) (key : Option Bytes) (rest : List Text)
    (keys : List (Option Bytes))
    → line_root hs line ≡ key
    → roots_of hs rest ≡ somes keys
    → roots_of hs (line ∷ rest) ≡ somes (key ∷ keys)
unfolding roots_of
roots_of-line hs line none rest keys e h = ground (arith, e, h)
roots_of-line hs line (some key) rest keys e h = ground (arith, e, h)

roots_of-roots_text :
    (hs : Hashing) (ls : List FileLine)
    → All (IsLine hs) ls
    → roots_of hs (lines (roots_text ls)) ≡ keys_of ls
roots_of-roots_text hs [] h = unfold roots_of lines lines_from in refl
roots_of-roots_text hs (l ∷ ls) h =
    ap (roots_of hs) (lines-line (line_of l.word l.note) (roots_text ls) h.0.one_line)
    ∙ roots_of-line hs (line_of l.word l.note) l.key (lines (roots_text ls)) (map (λ l. l.key) ls)
        (line_root-IsLine hs l h.0) (roots_of-roots_text hs ls h.1)

-- A host reads from its file exactly the keys that its lines list, in their order, where each line
-- ends in a line feed and has no other and no carriage return. Up to its first `#` a line lists, apart
-- from the blanks around it, hexadecimal for a key of 32 bytes, and is else passed over, be it blank, a
-- comment or anything else.
pub load_roots-listed :
    (hs : Hashing) (env : EnvVars) (data_dir : Option Text) (read : Text → Option Text)
    (ls : List FileLine)
    → read (roots_path env data_dir) ≡ some (roots_text ls)
    → All (IsLine hs) ls
    → load_roots hs env data_dir read ≡ keys_of ls
unfolding load_roots
load_roots-listed hs env data_dir read ls file h = ground (arith, file, roots_of-roots_text hs ls h)
