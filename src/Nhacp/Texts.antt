-- ===== src/Nhacp/Texts.antt =====
-- libnabud/nhacp_proto.h, the counted strings of messages, and nabud/nhacp.c, the error codes: their
-- texts and what they are for an error number of Unix. The error numbers are those of Linux.
use Prim.Native.Char.{code}
use Prim.Native.String.{String}
use nabud.Prelude.{
  ℕ, zero, suc, ◌+◌, ◌/◌, ◌%◌, List, [], ◌∷◌, ◌++◌, ◌==◌, ltb, length, take, Option,
}
use nabud.Prelude.{none, some, if◌then◌else◌, get_elem?}
use nabud.Nhacp.{Buffer, store, fetch}
use nabud.Stext.{Errno, ebusy, efbig, emfile, erofs, other_errno}

-- The bytes of a text literal.
abbrev pub codes : String → List ℕ
codes String.[] = []
codes (String.◌∷◌ c s) = code c ∷ codes s

-- The loop of `nhacp_strlen`, with `resid` bytes to go.
strlen_loop : ℕ → ℕ → Buffer → ℕ
strlen_loop i zero buf = 0
strlen_loop i (suc resid) buf =
    let further = strlen_loop (i + 1) resid buf in if buf i == 0 then 0 else suc further

-- The offset is that of the `length` byte of the string.
unfoldable pub nhacp_strlen : ℕ → Buffer → ℕ
unfolding strlen_loop
nhacp_strlen s buf = strlen_loop (s + 1) (buf s) buf

abbrev pub nhacp_strsize : ℕ → Buffer → ℕ
nhacp_strsize s buf = buf s

-- The text; the terminator that the function stores is what ends it.
unfoldable pub nhacp_string_get : ℕ → Buffer → List ℕ
nhacp_string_get s buf = fetch (s + 1) (nhacp_strlen s buf) buf

unfoldable pub nhacp_string_set_limit : ℕ → List ℕ → ℕ → Buffer → Buffer
nhacp_string_set_limit s cp lim buf = let text = take lim cp in store s (length text ∷ text) buf

abbrev pub nhacp_ebadf : ℕ
nhacp_ebadf = 5

abbrev pub nhacp_eisdir : ℕ
nhacp_eisdir = 10

abbrev pub nhacp_einval : ℕ
nhacp_einval = 11

abbrev pub nhacp_esrch : ℕ
nhacp_esrch = 18

abbrev pub nhacp_ensess : ℕ
nhacp_ensess = 19

abbrev pub nhacp_eio : ℕ
nhacp_eio = 4

-- The entries of `nhacp_error_map` before the default, without EFTYPE, which Linux lacks.
abbrev pub nhacp_error_map : List (ℕ × ℕ)
nhacp_error_map =
    (0, 0)
    ∷ (95, 1)
    ∷ (1, 2)
    ∷ (2, 3)
    ∷ (5, 4)
    ∷ (9, 5)
    ∷ (12, 6)
    ∷ (13, 7)
    ∷ (16, 8)
    ∷ (17, 9)
    ∷ (21, 10)
    ∷ (20, 16)
    ∷ (23, 12)
    ∷ (24, 12)
    ∷ (27, 13)
    ∷ (28, 14)
    ∷ (29, 15)
    ∷ (18, 2)
    ∷ (30, 21)
    ∷ (39, 17)
    ∷ (3, 18)
    ∷ (11, 20)
    ∷ []

-- `nhacp_error_map_find` with an error number of Unix: the loop, and the code of the entry found.
unfoldable pub nhacp_error_map_find : List (ℕ × ℕ) → ℕ → ℕ
nhacp_error_map_find [] unix_err = nhacp_eio
nhacp_error_map_find ((ue, ne) ∷ entries) unix_err =
    let further = nhacp_error_map_find entries unix_err in if ue == unix_err then ne else further

unfoldable pub nhacp_error_from_unix : ℕ → ℕ
unfolding nhacp_error_map_find
nhacp_error_from_unix unix_err = nhacp_error_map_find nhacp_error_map unix_err

abbrev pub errno_number : Errno → ℕ
errno_number ebusy = 16
errno_number efbig = 27
errno_number emfile = 24
errno_number erofs = 30
errno_number (other_errno n) = n

-- By their codes; code 0 has no text.
abbrev pub nhacp_error_strings : List (Option (List ℕ))
nhacp_error_strings =
    none
    ∷ some (codes "OPERATION NOT SUPPORTED")
    ∷ some (codes "OPERATION NOT PERMITTED")
    ∷ some (codes "NO SUCH FILE")
    ∷ some (codes "IO ERROR")
    ∷ some (codes "INVALID FILE")
    ∷ some (codes "OUT OF MEMORY")
    ∷ some (codes "ACCESS DENIED")
    ∷ some (codes "RESOURCE BUSY")
    ∷ some (codes "FILE EXISTS")
    ∷ some (codes "FILE IS A DIRECTORY")
    ∷ some (codes "BAD REQUEST")
    ∷ some (codes "TOO MANY OPEN FILES")
    ∷ some (codes "FILE TOO BIG")
    ∷ some (codes "OUT OF SPACE")
    ∷ some (codes "ILLEGAL SEEK")
    ∷ some (codes "FILE IS NOT A DIRECTORY")
    ∷ some (codes "DIRECTORY IS NOT EMPTY")
    ∷ some (codes "NO SUCH PROCESS")
    ∷ some (codes "TOO MANY SESSIONS")
    ∷ some (codes "TRY AGAIN LATER")
    ∷ some (codes "FILE IS WRITE-PROTECTED")
    ∷ []

-- `%u` of a number of at most five digits.
abbrev decimal_loop : ℕ → ℕ → List ℕ → List ℕ
decimal_loop zero n digits = digits
decimal_loop (suc fuel) n digits =
    let more = decimal_loop fuel (n / 10) ((48 + n % 10) ∷ digits) in
    if ltb n 10 then (48 + n % 10) ∷ digits else more

abbrev pub decimal : ℕ → List ℕ
decimal n = decimal_loop 5 n []

abbrev known_text : Option (Option (List ℕ)) → ℕ → List ℕ
known_text (some (some text)) code = text
known_text (some none) code = codes "UNKNOWN ERROR " ++ decimal code
known_text none code = codes "UNKNOWN ERROR " ++ decimal code

-- The text for a code of 16 bits, in `nhacp_send_error_details`.
unfoldable pub error_message : ℕ → List ℕ
error_message code = known_text (get_elem? nhacp_error_strings code) code
