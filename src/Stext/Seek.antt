-- ===== src/Stext/Seek.antt =====
-- nabud/stext.c: the cursor of a file. What seeks is an operation of the file, so `stext_file_seek`
-- has it as an argument; that of a shadow buffer is here, that of a file of the system is lseek(2).
use nabud.Prelude.{ℕ, suc, ◌+◌, ◌-◌, ◌%◌, ◌^◌, ◌<◌, ◌≡◌, ◌⊎◌, inl, inr, refl, arith}
use nabud.Prelude.{List, length, ltb, leb, if◌then◌else◌, Option, none, some, true, Bool-cases}
use nabud.Prelude.{ap, ◌∙◌, if-cases}
use nabud.Stext.{Errno, efbig, other_errno, Result, ok, error}
use nabud.Prelude.{drop, length-take, ◌≤◌, []}
use nabud.Stext.{shadow}
use nabud.Stext.Files.{
  stext_fileop_read_shadow, stext_file_pread, stext_fileop_pread_shadow, advanced,
}
use nabud.Stext.Transfer.{span, pread-span, pread_shadow-fileio}
use nabud.Stext.Open.{max_shadow_length}

-- `off_t` and `int32_t`: `negsuc n` is -(n + 1).
pub data ℤ : Type 0 where
  pos negsuc : ℕ → ℤ

-- SEEK_SET, SEEK_CUR, SEEK_END, and any other value of `whence`
pub data Whence : Type 0 where
  seek_set seek_cur seek_end other_whence : Whence

-- The cursor is set and returned.
abbrev moved_to : ℕ → Option ℕ × ℕ
moved_to n = (some (n % 2 ^ 32), n % 2 ^ 32)

abbrev moved_from : ℕ → ℕ → ℤ → Option ℕ × ℕ
moved_from base cursor (pos n) = moved_to (base + n)
moved_from base cursor (negsuc n) =
    if ltb base (suc n) then (none, cursor) else moved_to (base - suc n)

-- What is returned, `none` for -1, and the cursor.
unfoldable pub stext_fileop_seek_shadow : List ℕ → ℕ → ℤ → Whence → Option ℕ × ℕ
stext_fileop_seek_shadow content cursor (pos n) seek_set = moved_to n
stext_fileop_seek_shadow content cursor (negsuc n) seek_set = (none, cursor)
stext_fileop_seek_shadow content cursor offset seek_cur = moved_from cursor cursor offset
stext_fileop_seek_shadow content cursor offset seek_end = moved_from (length content) cursor offset
stext_fileop_seek_shadow content cursor offset other_whence = (none, cursor)

-- The conversion from a position, which is below 2 ^ 32, to `int32_t`.
unfoldable pub to_int32 : ℕ → ℤ
to_int32 n = if ltb n (2 ^ 31) then pos n else negsuc (2 ^ 32 - 1 - n)

module _ {C : Type 0} (file_seek : C → ℤ → Whence → Option ℕ × C) (max_length : ℕ) where
  abbrev new_position : ℕ → Option ℕ × C → Result ℤ × C
  new_position ooff (none, c) = (error (other_errno 22), c)
  new_position ooff (some noff, c) =
      if leb max_length noff
      then (error efbig, (file_seek c (pos ooff) seek_set).1)
      else (ok (to_int32 noff), c)

  abbrev old_position : ℤ → Whence → Option ℕ × C → Result ℤ × C
  old_position offset whence (none, c) = (error (other_errno 5), c)
  old_position offset whence (some ooff, c) = new_position ooff (file_seek c offset whence)

  unfoldable pub stext_file_seek : C → ℤ → Whence → Result ℤ × C
  stext_file_seek c offset whence = old_position offset whence (file_seek c (pos 0) seek_cur)

-- `file_seek` and `max_length` of `stext_fileops_shadow`
abbrev pub seek_in_shadow : List ℕ → ℕ → ℤ → Whence → Result ℤ × ℕ
seek_in_shadow content = stext_file_seek (stext_fileop_seek_shadow content) max_shadow_length

-- What can be asked for: the offsets of 32 bits with a sign.
abbrev pub IsInt32 : ℤ → Type 0
IsInt32 (pos n) = n < 2 ^ 31
IsInt32 (negsuc n) = n < 2 ^ 31

abbrev pub added : ℕ → ℤ → Option ℕ
added base (pos n) = some (base + n)
added base (negsuc n) = if ltb base (suc n) then none else some (base - suc n)

-- The position that is asked for, if there is one.
abbrev pub wanted : List ℕ → ℕ → ℤ → Whence → Option ℕ
wanted content cursor offset seek_set = added 0 offset
wanted content cursor offset seek_cur = added cursor offset
wanted content cursor offset seek_end = added (length content) offset
wanted content cursor offset other_whence = none

to_int32-small : (q : ℕ) → q < max_shadow_length → to_int32 q ≡ pos q
unfolding to_int32
to_int32-small q h = ground arith

-- The way back, where the position is too far.
set_back :
    (content : List ℕ) (c cursor : ℕ)
    → cursor < 2 ^ 32
    → (stext_fileop_seek_shadow content c (pos cursor) seek_set).1 ≡ cursor
unfolding stext_fileop_seek_shadow
set_back content c cursor h = omega (arith, h)

-- The cursor is where it is.
stays :
    (content : List ℕ) (cursor : ℕ)
    → cursor < 2 ^ 32
    → stext_fileop_seek_shadow content cursor (pos 0) seek_cur ≡ (some cursor, cursor)
unfolding stext_fileop_seek_shadow
stays content cursor h = ap {A = ℕ} (λ p. (some p, p)) (omega (arith, h))

-- What a read at a position in a shadow buffer answers: the bytes that are there, how many they are,
-- and the cursor behind them.
abbrev pub ReadsSpan : List ℕ → ℕ → ℕ → Type 0
ReadsSpan content p len = stext_fileop_read_shadow content p len ≡ (
  ok (span content p len, length (span content p len)),
  shadow content (p + length (span content p len)),
)

read_shadow-ReadsSpan :
    (content : List ℕ) (p len : ℕ) → p < max_shadow_length → len < 2 ^ 16 → ReadsSpan content p len
unfolding stext_fileop_read_shadow stext_file_pread stext_fileop_pread_shadow
read_shadow-ReadsSpan content p len h k =
    let n : ℕ = length (span content p len) in
    let few = length-take len (drop p content) in
    let same =
      pread_shadow-fileio [] content p p len tt (omega arith)
      ∙ pread-span [] content p len tt (omega arith) in
    ap (advanced content p) same
    ∙ ap (λ c. (ok (span content p len, n), shadow content c)) (omega (arith, few))

-- Where a seek comes to from `cursor`: an error leaves the cursor where it was. At a position below
-- the largest length, reading gives what stands there.
abbrev pub Reaches : List ℕ → ℕ → ℕ → Option ℕ → Result ℤ × ℕ → Type 0
Reaches content cursor len none r = (e : Errno) × (r ≡ (error e, cursor))
Reaches content cursor len (some p) r =
    ((p < max_shadow_length) × (r ≡ (ok (pos p), p)) × ReadsSpan content p len)
    ⊎ ((max_shadow_length ≤ p) × (r ≡ (error efbig, cursor)))

-- What the operation of the file answers, and the cursor.
abbrev arrival : ℕ → Option ℕ → Option ℕ × ℕ
arrival cursor none = (none, cursor)
arrival cursor (some p) = (some p, p)

moved_from-arrival :
    (base cursor : ℕ) (offset : ℤ)
    → base ≤ max_shadow_length
    → IsInt32 offset
    → moved_from base cursor offset ≡ arrival cursor (added base offset)
moved_from-arrival base cursor (pos n) h k = ap {A = ℕ} (λ p. (some p, p)) (omega arith)
moved_from-arrival base cursor (negsuc n) h k = elim (Bool-cases (ltb base (suc n))) [
  | inl e ↦ rw e refl
  | inr e ↦ rw e (ap {A = ℕ} (λ p. (some p, p)) (omega arith))
]

seek_shadow-arrival :
    (content : List ℕ) (cursor : ℕ) (offset : ℤ) (whence : Whence)
    → cursor ≤ max_shadow_length
    → length content ≤ max_shadow_length
    → IsInt32 offset
    → stext_fileop_seek_shadow content cursor offset whence
      ≡ arrival cursor (wanted content cursor offset whence)
unfolding stext_fileop_seek_shadow
seek_shadow-arrival content cursor (pos n) seek_set h l k =
    ap {A = ℕ} (λ p. (some p, p)) (omega arith)
seek_shadow-arrival content cursor (negsuc n) seek_set h l k =
    let negative : ltb 0 (suc n) ≡ true = ground arith in rw negative refl
seek_shadow-arrival content cursor (pos n) seek_cur h l k =
    moved_from-arrival cursor cursor (pos n) (omega arith) k
seek_shadow-arrival content cursor (negsuc n) seek_cur h l k =
    moved_from-arrival cursor cursor (negsuc n) (omega arith) k
seek_shadow-arrival content cursor (pos n) seek_end h l k =
    moved_from-arrival (length content) cursor (pos n) l k
seek_shadow-arrival content cursor (negsuc n) seek_end h l k =
    moved_from-arrival (length content) cursor (negsuc n) l k
seek_shadow-arrival content cursor (pos n) other_whence h l k = refl
seek_shadow-arrival content cursor (negsuc n) other_whence h l k = refl

new_position-Reaches :
    (content : List ℕ) (cursor len : ℕ) (w : Option ℕ)
    → cursor < 2 ^ 32
    → len < 2 ^ 16
    → Reaches content cursor len w (
        new_position (stext_fileop_seek_shadow content) max_shadow_length cursor (arrival cursor w))
new_position-Reaches content cursor len none h k = (other_errno 22, refl)
new_position-Reaches content cursor len (some q) h k =
    if-cases (Reaches content cursor len (some q)) (leb max_shadow_length q) _ _
      (λ far. inr (ground arith, ap (λ c. (error efbig, c)) (set_back content q cursor h)))
      (λ near.
        let below : q < max_shadow_length = ground arith in
        inl (
          below,
          ap (λ p. (ok p, q)) (to_int32-small q below),
          read_shadow-ReadsSpan content q len below k,
        ))

-- A seek by an offset of 32 bits, in a shadow buffer that is not too long and whose cursor is in its
-- range, comes to the position asked for if there is one and it is below the largest length, and
-- the next read of less than 2 ^ 16 bytes gives what stands there; else it is refused and leaves
-- the cursor where it was.
pub seek_in_shadow-Reaches :
    (content : List ℕ) (cursor len : ℕ) (offset : ℤ) (whence : Whence)
    → cursor ≤ max_shadow_length
    → length content ≤ max_shadow_length
    → IsInt32 offset
    → len < 2 ^ 16
    → Reaches content cursor len
        (wanted content cursor offset whence)
        (seek_in_shadow content cursor offset whence)
unfolding stext_file_seek
seek_in_shadow-Reaches content cursor len offset whence h l i k =
    rw (stays content cursor (omega arith)) (
      rw (seek_shadow-arrival content cursor offset whence h l i) (
        new_position-Reaches content cursor len (wanted content cursor offset whence) (omega arith)
          k))
