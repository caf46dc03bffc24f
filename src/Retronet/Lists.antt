-- ===== src/Retronet/Lists.antt =====
-- nabud/retronet.c: FILE-LIST, FILE-LIST-ITEM and the details of a file.
use nabud.Prelude.{ℕ, ◌+◌, ◌-◌, ◌%◌, ◌^◌, List, [], ◌∷◌, ◌++◌, ◌==◌}
use nabud.Prelude.{ltb, if◌then◌else◌, Option, none, some, ◌⊎◌, inl, inr, bit_and, length}
use nabud.Prelude.{take, drop, get_elem?, not}
use nabud.Prelude.Monad.{M, pure, modify, read, ◌>>=◌, ◌>>◌}
use nabud.Proto.{nabu_set_uint16, nabu_set_uint32}
use nabud.Stext.Files.{zeros}
use nabud.Fileio.{slash}
use nabud.Retronet.{
  RnExchange, RnSystem, RetronetContext, RnFileListEntry, FileioAttrs, LocalTime, conn_send,
  on_request, get16,
}
use nabud.Retronet.Names.{rn_file_copy_move_getargs, resolve}

abbrev time_bytes : LocalTime → List ℕ
time_bytes t =
    nabu_set_uint16 t.year
    ++ (t.month % 256 ∷ t.day % 256 ∷ t.hour % 256 ∷ t.minute % 256 ∷ t.second % 256 ∷ [])

-- What follows the last slash of `rest`, of which `name` is what follows the last one so far.
unfoldable last_name : List ℕ → List ℕ → List ℕ
last_name name [] = name
last_name name (c ∷ rest) = last_name (if c == slash then rest else name) rest

abbrev size_field : FileioAttrs → ℕ
size_field a =
    if a.is_directory then 2 ^ 32 - 1 else if ltb (2 ^ 32 - 1) a.size then 2 ^ 32 - 1 else a.size

-- The bytes of `struct rn_file_details`; no attributes where the file does not exist.
unfoldable pub rn_fileio_attrs_to_file_details : List ℕ → Option FileioAttrs → List ℕ
unfolding last_name nabu_set_uint16 nabu_set_uint32 zeros
rn_fileio_attrs_to_file_details location attrs =
    let name = take 64 (last_name location location) in
    (elim attrs [
      | none ↦ nabu_set_uint32 (2 ^ 32 - 2) ++ zeros 14
      | some a ↦ nabu_set_uint32 (size_field a) ++ (time_bytes a.btime ++ time_bytes a.mtime)
    ])
    ++ (length name ∷ (name ++ zeros (64 - length name)))

abbrev pub with_context : (RetronetContext → RetronetContext) → RnExchange → RnExchange
with_context f e = record e { ctx = f e.ctx }

abbrev pub rn_file_list_free : RetronetContext → RetronetContext
rn_file_list_free ctx = record ctx { file_list = []; file_list_count = 0; cached_entry = none }

-- `STAILQ_INSERT_TAIL` of a new entry.
abbrev pub add_entry : List ℕ → FileioAttrs → RetronetContext → RetronetContext
add_entry path a ctx = record ctx {
  file_list =
      ctx.file_list
      ++ (record {
        idx = ctx.file_list_count;
        details = rn_fileio_attrs_to_file_details path (some a);
      }
          ∷ []);
  file_list_count = ctx.file_list_count + 1;
}

abbrev pub flag_of : FileioAttrs → ℕ
flag_of a = if a.is_directory then 0x02 else 0x01

-- One path that the pattern matches.
abbrev pub list_path : ℕ → List ℕ → ℕ ⊎ FileioAttrs → RetronetContext → RetronetContext
list_path flags path (inl e) ctx = ctx
list_path flags path (inr a) ctx =
    if bit_and flags (flag_of a) == 0 then ctx else add_entry path a ctx

-- The loop over the paths; it ends early where there is no memory for an entry.
unfoldable pub list_paths : RnSystem → ℕ → List (List ℕ) → RetronetContext → RetronetContext
list_paths system flags [] ctx = ctx
list_paths system flags (path ∷ paths) ctx =
    let more =
      list_paths system flags paths (list_path flags path (system.getattr_location path) ctx) in
    if system.malloc_ok then more else ctx

-- Slashes at the end are cut off, but for the first character.
unfoldable cut_slashes : List ℕ → List ℕ
cut_slashes [] = []
cut_slashes (c ∷ cs) =
    let rest = cut_slashes cs in
    elim rest [ [] ↦ if c == slash then [] else c ∷ [] | d ∷ ds ↦ c ∷ d ∷ ds ]

abbrev cut_tail : List ℕ → List ℕ
cut_tail [] = []
cut_tail (c ∷ cs) = c ∷ cut_slashes cs

abbrev pub matched : RnSystem → ℕ → Option (List (List ℕ)) → RetronetContext → RetronetContext
matched system flags none ctx = ctx
matched system flags (some paths) ctx = list_paths system flags paths ctx

unfoldable pub listed : RnSystem → List ℕ → ℕ → ℕ ⊎ List ℕ → RetronetContext → RetronetContext
unfolding cut_slashes list_paths
listed system pattern flags (inl e) ctx = ctx
listed system pattern flags (inr path) ctx =
    if not system.malloc_ok
    then ctx
    else matched system flags (system.glob (cut_tail path ++ (slash ∷ pattern))) ctx

unfoldable pub rn_req_file_list : M RnExchange (Unit {0})
unfolding rn_file_copy_move_getargs listed nabu_set_uint16
rn_req_file_list = do
  modify (with_context rn_file_list_free)
  args ← rn_file_copy_move_getargs
  elim args [
    | none ↦ pure tt
    | some (where_, pattern, flags) ↦ do
      path ← resolve where_
      system ← read (λ e. e.system)
      modify (with_context (listed system pattern flags path))
      count ← read (λ e. e.ctx.file_list_count)
      conn_send (nabu_set_uint16 (count % 2 ^ 16))
  ]

-- The first entry with the index, by its position: `from` is that of the head of the list.
unfoldable pub find_item : ℕ → ℕ → List RnFileListEntry → Option ℕ
find_item idx from [] = none
find_item idx from (e ∷ es) =
    let further = find_item idx (from + 1) es in if e.idx == idx then some from else further

abbrev or_else : Option ℕ → Option ℕ → Option ℕ
or_else none o = o
or_else (some p) o = some p

-- The two loops: from the cached entry to the end, and from the first up to the cached entry, where the
-- second loop leaves `e`.
unfoldable pub lookup_item : ℕ → Option ℕ → List RnFileListEntry → Option ℕ
unfolding find_item
lookup_item idx none entries = find_item idx 0 entries
lookup_item idx (some c) entries =
    or_else (find_item idx c (drop c entries)) (or_else (find_item idx 0 (take c entries)) (some c))

abbrev no_details : List ℕ
no_details = nabu_set_uint32 (2 ^ 32 - 2) ++ zeros 79

abbrev pub item_details : List RnFileListEntry → Option ℕ → List ℕ
item_details entries none = no_details
item_details entries (some p) = elim (get_elem? entries p) [
  | none ↦ no_details
  | some e ↦ e.details
]

unfoldable pub rn_req_file_list_item : M RnExchange (Unit {0})
unfolding lookup_item get16 nabu_set_uint32 zeros
rn_req_file_list_item = on_request 2 (λ req. do
  ctx ← read (λ e. e.ctx)
  let e = lookup_item (get16 0 req) ctx.cached_entry ctx.file_list
  modify (with_context (λ ctx. record ctx { cached_entry = e }))
  conn_send (item_details ctx.file_list e))
