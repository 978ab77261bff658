-- ===== src/Files/Crash.antt =====
-- `atomic_write` of src/held.rs, cut short anywhere and with every fault: what the target holds.
use ce_pin.Prelude.{
  ℕ, ◌≡◌, refl, ap, ◌∙◌, Bool, true, false, Option, none, some, List, [], ◌∷◌, ◌++◌, take, length,
  ◌⊎◌, inl, inr, arith, All, All-append, All-take, take-concat, Bool-cases, append_assoc,
  append-nil, length-append,
}
use ce_pin.Prelude.Text.{Text, text_eq, lit}
use ce_pin.Prelude.Text.Laws.{text_eq_iff, text_eq_refl}
use ce_pin.Prelude.Map.{lookup, insert, remove}
use ce_pin.Prelude.Map.Laws.{lookup-insert, lookup-remove, lookup-modify}
use ce_pin.Files.{
  Bytes, Directory, FileOp, create, append, sync, rename, unlink, perform, perform_all, Faults,
  WriteResult, written, temp_name, write_all, prepare, attempt, atomic_write,
}

-- A file system that refuses nothing.
abbrev pub no_faults : Faults
no_faults = record { create_ok = true; write_stops = none; rename_ok = true }

temp_name-ne : (pid file : Text) → text_eq file (temp_name pid file) ≡ false
unfolding temp_name
temp_name-ne pid file = elim (Bool-cases (text_eq file (temp_name pid file))) [
  | inl same ↦ absurd (
      omega (
        arith,
        ap length ((text_eq_iff file (temp_name pid file)).0 same),
        length-append file (lit ".tmp." ++ pid),
      ))
  | inr differs ↦ differs
]

-- An operation that touches no file but `tmp`.
abbrev Touches : Text → FileOp → Type 0
Touches tmp (create name) = name ≡ tmp
Touches tmp (append name byte) = name ≡ tmp
Touches tmp (sync name) = Unit
Touches tmp (rename from to) = ⊥
Touches tmp (unlink name) = name ≡ tmp

Touches-lookup :
    (tmp name : Text) (op : FileOp) (d : Directory)
    → text_eq name tmp ≡ false
    → Touches tmp op
    → lookup name (perform op d) ≡ lookup name d
unfolding perform
Touches-lookup tmp name (create f) d n h = rw h (lookup-insert tmp name [] d ∙ rw n)
Touches-lookup tmp name (append f b) d n h =
    rw h (lookup-modify tmp name (λ content. content ++ b ∷ []) d ∙ rw n)
Touches-lookup tmp name (sync f) d n h = refl
Touches-lookup tmp name (rename f g) d n h = absurd h
Touches-lookup tmp name (unlink f) d n h = rw h (lookup-remove tmp name d ∙ rw n)

All-Touches-lookup :
    (tmp name : Text) (ops : List FileOp) (d : Directory)
    → text_eq name tmp ≡ false
    → All (Touches tmp) ops
    → lookup name (perform_all ops d) ≡ lookup name d
unfolding perform_all
All-Touches-lookup tmp name [] d n h = refl
All-Touches-lookup tmp name (op ∷ ops) d n h =
    All-Touches-lookup tmp name ops (perform op d) n h.1 ∙ Touches-lookup tmp name op d n h.0

write_all-Touches : (tmp : Text) (bytes : Bytes) → All (Touches tmp) (write_all tmp bytes)
unfolding write_all
write_all-Touches tmp [] = tt
write_all-Touches tmp (b ∷ bytes) = (refl, write_all-Touches tmp bytes)

prepare-Touches : (tmp : Text) (bytes : Bytes) → All (Touches tmp) (prepare tmp bytes)
prepare-Touches tmp bytes = (
  refl,
  All-append (Touches tmp) (write_all tmp bytes) (sync tmp ∷ []) (write_all-Touches tmp bytes)
      (tt, tt),
)

perform_all-append :
    (xs ys : List FileOp) (d : Directory)
    → perform_all (xs ++ ys) d ≡ perform_all ys (perform_all xs d)
unfolding perform_all
perform_all-append [] ys d = refl
perform_all-append (x ∷ xs) ys d = perform_all-append xs ys (perform x d)

write_all-lookup :
    (tmp : Text) (bytes content : Bytes) (d : Directory)
    → lookup tmp d ≡ some content
    → lookup tmp (perform_all (write_all tmp bytes) d) ≡ some (content ++ bytes)
unfolding write_all perform_all
write_all-lookup tmp [] content d h = rw append-nil h
write_all-lookup tmp (b ∷ bytes) content d h =
    write_all-lookup tmp bytes (content ++ b ∷ []) (perform (append tmp b) d)
      (lookup-modify tmp tmp (λ c. c ++ b ∷ []) d ∙ rw (text_eq_refl tmp, h))
    ∙ ap some (append_assoc content (b ∷ []) bytes)

prepare-lookup :
    (tmp : Text) (bytes : Bytes) (d : Directory)
    → lookup tmp (perform_all (prepare tmp bytes) d) ≡ some bytes
unfolding perform_all
prepare-lookup tmp bytes d =
    ap (lookup tmp) (perform_all-append (write_all tmp bytes) (sync tmp ∷ []) (insert tmp [] d))
    ∙ write_all-lookup tmp bytes [] (insert tmp [] d)
        (lookup-insert tmp tmp [] d ∙ rw (text_eq_refl tmp))

-- A rename carries the content over.
pub rename_carries :
    (from to : Text) (bytes : Bytes) (d : Directory)
    → lookup from d ≡ some bytes
    → lookup to (perform (rename from to) d) ≡ some bytes
unfolding perform
rename_carries from to bytes d h =
    rw (h, perform) (lookup-insert to to bytes (remove from d) ∙ rw (text_eq_refl to))

-- The rename puts all of the bytes in place.
rename-lookup :
    (tmp file : Text) (bytes : Bytes) (d : Directory)
    → lookup file (perform_all (prepare tmp bytes ++ rename tmp file ∷ []) d) ≡ some bytes
unfolding perform_all
rename-lookup tmp file bytes d =
    ap (lookup file) (perform_all-append (prepare tmp bytes) (rename tmp file ∷ []) d)
    ∙ rename_carries tmp file bytes (perform_all (prepare tmp bytes) d) (prepare-lookup tmp bytes d)

-- The operations leave the files other than `tmp` alone, whichever of them are carried out.
cut_Touches-lookup :
    (tmp name : Text) (ops : List FileOp) (d : Directory) (n : ℕ)
    → text_eq name tmp ≡ false
    → All (Touches tmp) ops
    → lookup name (perform_all (take n ops) d) ≡ lookup name d
cut_Touches-lookup tmp name ops d n h t =
    All-Touches-lookup tmp name (take n ops) d h (All-take (Touches tmp) n ops t)

rolled_back-Touches :
    (tmp : Text) (bytes : Bytes) → All (Touches tmp) (prepare tmp bytes ++ unlink tmp ∷ [])
rolled_back-Touches tmp bytes =
    All-append (Touches tmp) (prepare tmp bytes) (unlink tmp ∷ []) (prepare-Touches tmp bytes)
      (refl, tt)

attempt-crash :
    (creates : Bool) (stops : Option ℕ) (renames : Bool) (tmp file : Text) (bytes : Bytes)
    (d : Directory) (n : ℕ)
    → text_eq file tmp ≡ false
    → let after =
        lookup file (perform_all (take n (attempt creates stops renames tmp file bytes).0) d) in
      (after ≡ lookup file d) ⊎ (after ≡ some bytes)
unfolding attempt
attempt-crash false stops renames tmp file bytes d n h =
    inl (cut_Touches-lookup tmp file [] d n h tt)
attempt-crash true (some k) renames tmp file bytes d n h = inl (
    cut_Touches-lookup tmp file (create tmp ∷ write_all tmp (take k bytes)) d n h
      (refl, write_all-Touches tmp (take k bytes)))
attempt-crash true none false tmp file bytes d n h =
    inl (cut_Touches-lookup tmp file _ d n h (rolled_back-Touches tmp bytes))
attempt-crash true none true tmp file bytes d n h =
    elim (take-concat n (prepare tmp bytes) (rename tmp file)) [
      | inl early ↦ inl (
          ap (λ ops. lookup file (perform_all ops d)) early
          ∙ cut_Touches-lookup tmp file (prepare tmp bytes) d n h (prepare-Touches tmp bytes))
      | inr whole ↦
          inr (ap (λ ops. lookup file (perform_all ops d)) whole ∙ rename-lookup tmp file bytes d)
    ]

-- However many of its operations are carried out, and whatever fails, the target holds what it
-- held before or all of the new bytes.
pub atomic_write-crash :
    (faults : Faults) (pid file : Text) (bytes : Bytes) (d : Directory) (n : ℕ)
    → let ops = (atomic_write faults pid file bytes).0 in
      (lookup file (perform_all (take n ops) d) ≡ lookup file d)
      ⊎ (lookup file (perform_all (take n ops) d) ≡ some bytes)
unfolding atomic_write
atomic_write-crash faults pid file bytes d n =
    attempt-crash faults.create_ok faults.write_stops faults.rename_ok (temp_name pid file) file
      bytes d n (temp_name-ne pid file)

-- What the target holds after a call that returned.
abbrev pub outcome : WriteResult → Bytes → Option Bytes → Option Bytes
outcome written bytes old = some bytes
outcome _ bytes old = old

attempt-outcome :
    (creates : Bool) (stops : Option ℕ) (renames : Bool) (tmp file : Text) (bytes : Bytes)
    (d : Directory)
    → text_eq file tmp ≡ false
    → let (ops, result) = attempt creates stops renames tmp file bytes in
      lookup file (perform_all ops d) ≡ outcome result bytes (lookup file d)
unfolding attempt
attempt-outcome false stops renames tmp file bytes d h = All-Touches-lookup tmp file [] d h tt
attempt-outcome true (some k) renames tmp file bytes d h =
    All-Touches-lookup tmp file (create tmp ∷ write_all tmp (take k bytes)) d h
      (refl, write_all-Touches tmp (take k bytes))
attempt-outcome true none false tmp file bytes d h =
    All-Touches-lookup tmp file _ d h (rolled_back-Touches tmp bytes)
attempt-outcome true none true tmp file bytes d h = rename-lookup tmp file bytes d

-- The result tells the truth: the target has the new bytes if the call succeeded, and its old
-- content if it failed.
pub atomic_write-outcome :
    (faults : Faults) (pid file : Text) (bytes : Bytes) (d : Directory)
    → let (ops, result) = atomic_write faults pid file bytes in
      lookup file (perform_all ops d) ≡ outcome result bytes (lookup file d)
unfolding atomic_write
atomic_write-outcome faults pid file bytes d =
    attempt-outcome faults.create_ok faults.write_stops faults.rename_ok (temp_name pid file) file
      bytes d (temp_name-ne pid file)
