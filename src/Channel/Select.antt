-- ===== src/Channel/Select.antt =====
-- A connection selects only what the list of channels holds.
use nabud.Prelude.{ℕ, ◌≤◌, ◌≡◌, refl, arith, List, [], ◌∷◌}
use nabud.Prelude.{none, some, Option-cases, inl, inr, ◌⊎◌, Bool-cases, ap, ◌∙◌, ltb, leb, ◌||◌}
use nabud.Channel.{ImageChannel, Selection, image_channel_lookup, conn_set_channel}
use nabud.Channel.{image_channel_select, select_found, conn_get_selected_file_logic}

-- The number that a channel is found under is its own.
pub lookup-number :
    (n : ℕ) (xs : List ImageChannel) (chan : ImageChannel)
    → image_channel_lookup n xs ≡ some chan
    → chan.number ≡ n
unfolding image_channel_lookup
lookup-number n [] chan h = cc
lookup-number n (x ∷ xs) chan h = ground (arith, lookup-number n xs chan)

-- A number that the code accepts for selection.
abbrev pub Selectable : ℕ → Type 0
Selectable w = (1 ≤ w) × (w ≤ 256)

select_range :
    (channels : List ImageChannel) (w : ℕ) (s : Selection)
    → ((image_channel_select channels w s ≡ s) × ¬ Selectable w)
      ⊎ ((image_channel_select channels w s ≡ select_found (image_channel_lookup w channels) s)
          × Selectable w)
unfolding image_channel_select
select_range channels w s = elim (Bool-cases (ltb w 1 || leb 0x8000 w || ltb 0x100 w)) [
  | inl e ↦ inl (rw e, λ h. ground arith)
  | inr e ↦ inr (rw e, (ground arith, ground arith))
]

-- A connection that selects a channel by the 16 bits of its number keeps its selection if the
-- number is not from 1 to 256 or no channel has it; otherwise it gets the channel of that number
-- in the table, and of its selected file only the channel's default is left.
pub select_cases :
    (channels : List ImageChannel) (w : ℕ) (s : Selection)
    → ((image_channel_select channels w s ≡ s)
        × (¬ Selectable w ⊎ (image_channel_lookup w channels ≡ none)))
      ⊎ ((chan : ImageChannel) × (image_channel_lookup w channels ≡ some chan)
          × (chan.number ≡ w)
          × Selectable w
          × (image_channel_select channels w s ≡ conn_set_channel chan s)
          × (conn_get_selected_file_logic (image_channel_select channels w s) ≡ chan.default_file))
select_cases channels w s = elim (select_range channels w s) [
  | inl (e, h) ↦ inl (e, inl h)
  | inr (e, h) ↦ elim (Option-cases (image_channel_lookup w channels)) [
    | inl none_found ↦ inl (e ∙ ap (λ o. select_found o s) none_found, inr none_found)
    | inr (chan, found) ↦
        let set : image_channel_select channels w s ≡ conn_set_channel chan s =
          e ∙ ap (λ o. select_found o s) found in
        inr (
          chan,
          found,
          lookup-number w channels chan found,
          h,
          set,
          ap conn_get_selected_file_logic set ∙ selected_default chan s,
        )
  ]
]
  where
    selected_default :
        (chan : ImageChannel) (s : Selection)
        → conn_get_selected_file_logic (conn_set_channel chan s) ≡ chan.default_file
    selected_default chan s = unfold conn_get_selected_file_logic conn_set_channel in refl
