-- ===== src/Retronet/Items.antt =====
-- The list of files that FILE-LIST makes, and the entry that FILE-LIST-ITEM chooses in it.
use nabud.Prelude.{ℕ, zero, suc, ◌+◌, ◌<◌, ◌≡◌, refl, sym, arith}
use nabud.Prelude.{List, [], ◌∷◌, ◌++◌, ◌==◌, ◌&&◌, leb, ltb, if◌then◌else◌, not}
use nabud.Prelude.{Option, none, some, ◌⊎◌, inl, inr, length, take, drop, length-take, length-drop}
use nabud.Prelude.{length-append, if-cases, bit_and}
use mathlib.Core.Path.{subst}
use nabud.Retronet.{RnSystem, RetronetContext, RnFileListEntry, FileioAttrs}
use nabud.Retronet.Lists.{
  find_item, lookup_item, list_paths, list_path, listed, matched, add_entry, rn_file_list_free,
  flag_of,
}

-- The entries have the indices from `n` on, in order.
abbrev pub Numbered : ℕ → List RnFileListEntry → Type 0
Numbered n [] = Unit
Numbered n (e ∷ es) = (e.idx ≡ n) × Numbered (n + 1) es

abbrev pub InList : Option ℕ → List RnFileListEntry → Type 0
InList none entries = Unit
InList (some p) entries = p < length entries

-- The entries are numbered from 0, counted, and the cached entry is one of them.
pub record IsNumbered (ctx : RetronetContext) : Type 0 where
  pub numbered : Numbered 0 ctx.file_list
  pub counted : ctx.file_list_count ≡ length ctx.file_list
  pub cached : InList ctx.cached_entry ctx.file_list

find_item-Numbered :
    (idx from : ℕ) (es : List RnFileListEntry)
    → Numbered from es
    → find_item idx from es
      ≡ (if leb from idx && ltb idx (from + length es) then some idx else none)
unfolding find_item
find_item-Numbered idx from [] h = ground arith
find_item-Numbered idx from (e ∷ es) (h, k) =
    let ih = find_item-Numbered idx (from + 1) es k in ground (arith, ih)

Numbered-drop :
    (n c : ℕ) (es : List RnFileListEntry)
    → Numbered n es
    → (k : ℕ) → k ≡ n + c
    → Numbered k (drop c es)
Numbered-drop n zero [] h k e = tt
Numbered-drop n zero (x ∷ es) h k e =
    let same : n ≡ k = omega arith in subst (λ m. Numbered m (x ∷ es)) same h
Numbered-drop n (suc c) [] h k e = tt
Numbered-drop n (suc c) (x ∷ es) (h, t) k e = Numbered-drop (n + 1) c es t k (omega arith)

Numbered-take : (n c : ℕ) (es : List RnFileListEntry) → Numbered n es → Numbered n (take c es)
Numbered-take n zero es h = tt
Numbered-take n (suc c) [] h = tt
Numbered-take n (suc c) (x ∷ es) (h, t) = (h, Numbered-take (n + 1) c es t)

-- In a list that is numbered, the entry with an index is found where it is; for an index behind the
-- end, the entry that was answered last is chosen again.
pub lookup_item-Numbered :
    (idx : ℕ) (cached : Option ℕ) (es : List RnFileListEntry)
    → Numbered 0 es
    → InList cached es
    → lookup_item idx cached es ≡ (if ltb idx (length es) then some idx else cached)
unfolding lookup_item
lookup_item-Numbered idx none es h c =
    let found = find_item-Numbered idx 0 es h in ground (arith, found)
lookup_item-Numbered idx (some p) es h c =
    let behind = find_item-Numbered idx p (drop p es) (Numbered-drop 0 p es h p (omega arith)) in
    let before = find_item-Numbered idx 0 (take p es) (Numbered-take 0 p es h) in
    let len_drop = length-drop p es in
    let len_take = length-take p es in ground (arith, behind, before, len_drop, len_take)

-- An entry that is added at the end has the next number.
Numbered-append :
    (n k : ℕ) (es : List RnFileListEntry) (e : RnFileListEntry)
    → Numbered n es
    → k ≡ n + length es
    → e.idx ≡ k
    → Numbered n (es ++ (e ∷ []))
Numbered-append n k [] e h l i = (omega arith, tt)
Numbered-append n k (x ∷ es) e (h, t) l i = (h, Numbered-append (n + 1) k es e t (omega arith) i)

InList-append :
    (o : Option ℕ) (es : List RnFileListEntry) (e : RnFileListEntry)
    → InList o es
    → InList o (es ++ (e ∷ []))
InList-append none es e h = tt
InList-append (some p) es e h = omega (arith, length-append es (e ∷ []))

add_entry-IsNumbered :
    (path : List ℕ) (a : FileioAttrs) (ctx : RetronetContext)
    → IsNumbered ctx
    → IsNumbered (add_entry path a ctx)
add_entry-IsNumbered path a ctx h = record {
  numbered =
      Numbered-append 0 ctx.file_list_count ctx.file_list _ h.numbered (omega (arith, h.counted))
        refl;
  counted = omega (arith, h.counted, length-append ctx.file_list (_ ∷ []));
  cached = InList-append ctx.cached_entry ctx.file_list _ h.cached;
}

list_path-IsNumbered :
    (flags : ℕ) (path : List ℕ) (found : ℕ ⊎ FileioAttrs) (ctx : RetronetContext)
    → IsNumbered ctx
    → IsNumbered (list_path flags path found ctx)
list_path-IsNumbered flags path (inl e) ctx h = h
list_path-IsNumbered flags path (inr a) ctx h =
    if-cases IsNumbered (bit_and flags (flag_of a) == 0) _ _ (λ e. h)
      (λ e. add_entry-IsNumbered path a ctx h)

list_paths-IsNumbered :
    (system : RnSystem) (flags : ℕ) (paths : List (List ℕ)) (ctx : RetronetContext)
    → IsNumbered ctx
    → IsNumbered (list_paths system flags paths ctx)
unfolding list_paths
list_paths-IsNumbered system flags [] ctx h = h
list_paths-IsNumbered system flags (path ∷ paths) ctx h =
    let next = list_path-IsNumbered flags path (system.getattr_location path) ctx h in
    let more =
      list_paths-IsNumbered system flags paths
        (list_path flags path (system.getattr_location path) ctx) next in
    if-cases IsNumbered system.malloc_ok _ _ (λ e. more) (λ e. h)

matched-IsNumbered :
    (system : RnSystem) (flags : ℕ) (paths : Option (List (List ℕ))) (ctx : RetronetContext)
    → IsNumbered ctx
    → IsNumbered (matched system flags paths ctx)
matched-IsNumbered system flags none ctx h = h
matched-IsNumbered system flags (some paths) ctx h = list_paths-IsNumbered system flags paths ctx h

pub free-IsNumbered : (ctx : RetronetContext) → IsNumbered (rn_file_list_free ctx)
free-IsNumbered ctx = record { numbered = tt; counted = refl; cached = tt }

pub listed-IsNumbered :
    (system : RnSystem) (pattern : List ℕ) (flags : ℕ) (path : ℕ ⊎ List ℕ) (ctx : RetronetContext)
    → IsNumbered ctx
    → IsNumbered (listed system pattern flags path ctx)
unfolding listed
listed-IsNumbered system pattern flags (inl e) ctx h = h
listed-IsNumbered system pattern flags (inr path) ctx h =
    if-cases IsNumbered (not system.malloc_ok) _ _ (λ e. h)
      (λ e. matched-IsNumbered system flags _ ctx h)

pub chosen-IsNumbered :
    (idx : ℕ) (ctx : RetronetContext)
    → IsNumbered ctx
    → IsNumbered (record ctx { cached_entry = lookup_item idx ctx.cached_entry ctx.file_list })
chosen-IsNumbered idx ctx h = record {
  numbered = h.numbered;
  counted = h.counted;
  cached =
      subst (λ o. InList o ctx.file_list)
        (sym (lookup_item-Numbered idx ctx.cached_entry ctx.file_list h.numbered h.cached))
        (if-cases (λ o. InList o ctx.file_list) (ltb idx (length ctx.file_list)) _ _
          (λ e. ground arith) (λ e. h.cached));
}
