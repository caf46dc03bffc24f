-- ===== src/Atom/Tests.antt =====
-- A string atom of one character and its nul.
use nabud.Prelude.{◌≡◌, refl, arith, List, [], ◌∷◌, true, false, some}
use nabud.Prelude.Monad.{done, fault}
use nabud.ConnIo.{ConnIo, ok, RecvEvent, wrote, read_eof}
use nabud.ConnIo.Recv.{bytes_then}
use nabud.Atom.{Atom, atom_recv, length_ok, nul_ok}
use nabud.Atom.Lists.{atom_list_append, atom_list_recv}
use nabud.Atom.Reception.{ListPost, list_recv-ListPost}
use nabud.Atom.Wire.{wire, atom_recv-wire}

abbrev name : Atom
name = record { tag = 0x0101_0100; content = b'x' ∷ 0 ∷ [] }

abbrev idle : List RecvEvent → ConnIo
idle es = record { state = ok; watchdog = 0; recvs = es; sends = wrote 2 ∷ []; sent = [] }

-- A string without a nul is refused, and so is a Boolean of two bytes.
refuses_unterminated : nul_ok 0x0100_0000 (b'x' ∷ []) ≡ false
unfolding nul_ok
refuses_unterminated = refl

refuses_long_bool : length_ok 0x0400_0000 2 ≡ false
unfolding length_ok
refuses_long_bool = refl

sized : length_ok 0x0100_0000 2 ≡ true
unfolding length_ok
sized = refl

ends : nul_ok 0x0100_0000 (b'x' ∷ 0 ∷ []) ≡ true
unfolding nul_ok
ends = refl

atom_recv-wire_example :
    atom_recv (λ n. true) (idle (bytes_then (wire name) (read_eof ∷ [])))
    ≡ done (
      some name,
      record (idle (bytes_then (wire name) (read_eof ∷ []))) { recvs = read_eof ∷ [] },
    )
atom_recv-wire_example =
    atom_recv-wire name (read_eof ∷ []) (λ n. true) (idle (bytes_then (wire name) (read_eof ∷ [])))
      (omega arith, sized, ends) (omega arith) refl refl

-- A Boolean is stored as 0 or 1, and data without a type that takes it is a failed assertion.
stores_truth :
    atom_list_append (λ n. true) 0x0400_0000 (7 ∷ []) []
    ≡ done (true, record { tag = 0x0400_0000; content = 1 ∷ [] } ∷ [])
unfolding atom_list_append
stores_truth = refl

refuses_void_data : atom_list_append (λ n. true) 0 (7 ∷ []) [] ≡ fault
unfolding atom_list_append
refuses_void_data = refl

list_recv-ListPost_example : ListPost (atom_list_recv (λ n. true) 20 (idle (read_eof ∷ [])))
list_recv-ListPost_example = list_recv-ListPost (λ n. true) 20 (idle (read_eof ∷ [])) (omega arith)
