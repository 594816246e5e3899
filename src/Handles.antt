-- ===== src/Handles.antt =====
-- src/fs.rs: the handles of the front end (`Handles`) and the slots for replies. The map from handles
-- to open files or directories (`BTreeMap`) is a list with the handles in ascending order.
use exfat_slim.Base.{
  ℕ, zero, suc, ◌+◌, ◌-◌, ◌^◌, Option, none, some, List, [], ◌∷◌, bit_and, bit_or, ltb, ◌==◌,
  if◌then◌else◌,
}
use exfat_slim.Word.{u32}

-- The errors of `Handles`.
pub data HandleError : Type 0 where
  exhausted_file_handles : HandleError
  invalid_file_handle : HandleError

pub data Answer (A : Type 0) : Type 0 where
  answer : A → Answer A
  refused : HandleError → Answer A

-- The map: look-up, insertion of a new key, and removal.
unfoldable pub at_key : {T : Type 0} → ℕ → List (ℕ × T) → Option T
at_key handle [] = none
at_key handle ((k, item) ∷ handles) = if k == handle then some item else at_key handle handles

unfoldable pub insert_key : {T : Type 0} → ℕ → T → List (ℕ × T) → List (ℕ × T)
insert_key handle item [] = (handle, item) ∷ []
insert_key handle item ((k, other) ∷ handles) =
    if ltb handle k
    then (handle, item) ∷ (k, other) ∷ handles
    else (k, other) ∷ insert_key handle item handles

unfoldable pub remove_key : {T : Type 0} → ℕ → List (ℕ × T) → List (ℕ × T)
remove_key handle [] = []
remove_key handle ((k, other) ∷ handles) =
    if k == handle then handles else (k, other) ∷ remove_key handle handles

pub record Handles (T : Type 0) : Type 0 where
  pub handles : List (ℕ × T)
  pub next_handle : ℕ

-- `Handles::new` and `clear`.
abbrev pub no_handles : {T : Type 0} → Handles T
no_handles = record { handles = []; next_handle = 0 }

abbrev pub clear_handles : {T : Type 0} → Handles T → Handles T
clear_handles h = record h { handles = [] }

-- The loop of `Handles::add`.
abbrev pub add_at :
    {T : Type 0} → T → Handles T → Option T → Answer ℕ × Handles T → Answer ℕ × Handles T
add_at item h none further =
    (answer h.next_handle, record h { handles = insert_key h.next_handle item h.handles })
add_at item h (some other) further = further

unfoldable pub add_from : {T : Type 0} → (rounds : ℕ) → T → Handles T → Answer ℕ × Handles T
add_from zero item h = (refused HandleError.exhausted_file_handles, h)
add_from (suc rounds) item h =
    let next = record h { next_handle = u32 (h.next_handle + 1) } in
    let further = add_from rounds item next in
    add_at item next (at_key next.next_handle h.handles) further

-- `Handles::add`: `u32::MAX` rounds at most.
unfoldable pub add_handle : {T : Type 0} → T → Handles T → Answer ℕ × Handles T
add_handle item h = add_from (2 ^ 32 - 1) item h

-- `Handles::remove`, `get` and `take_any`.
abbrev pub or_invalid : {T : Type 0} → Option T → Answer T
or_invalid none = refused HandleError.invalid_file_handle
or_invalid (some item) = answer item

unfoldable pub remove_handle : {T : Type 0} → ℕ → Handles T → Answer T × Handles T
remove_handle handle h =
    (or_invalid (at_key handle h.handles), record h { handles = remove_key handle h.handles })

unfoldable pub get_handle : {T : Type 0} → ℕ → Handles T → Answer T
get_handle handle h = or_invalid (at_key handle h.handles)

abbrev pub first_of : {T : Type 0} → List (ℕ × T) → Option T × List (ℕ × T)
first_of [] = (none, [])
first_of ((k, item) ∷ handles) = (some item, handles)

unfoldable pub take_any : {T : Type 0} → Handles T → Option T × Handles T
take_any h = let (item, left) = first_of h.handles in (item, record h { handles = left })

-- `REPLY_SLOTS`.
abbrev pub reply_slots : ℕ
reply_slots = 4

-- `claim_slot_locked`, from slot `i` on: the slot and the bitmap.
unfoldable pub claim_from : (count i bitmap : ℕ) → ℕ × ℕ
claim_from zero i bitmap = (0, bitmap)
claim_from (suc count) i bitmap =
    let mask = 2 ^ i in
    let further = claim_from count (suc i) bitmap in
    if bit_and bitmap mask == 0 then (i, bit_or bitmap mask) else further

abbrev pub claim_slot_locked : (bitmap : ℕ) → ℕ × ℕ
claim_slot_locked bitmap = claim_from reply_slots 0 bitmap

-- `release_slot_locked`.
abbrev pub release_slot_locked : (bitmap slot : ℕ) → ℕ
release_slot_locked bitmap slot = bit_and bitmap (2 ^ 32 - 1 - 2 ^ slot)
