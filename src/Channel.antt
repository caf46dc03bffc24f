-- ===== src/Channel.antt =====
-- The channels of nabud/image.c, and the channel and file that a connection of nabud/conn.c has
-- selected. A C string is the list of its bytes; the mutex of a connection guards single accesses
-- that the model makes in one step.
pub mod Select
pub mod Add
pub mod Adding
mod Tests
use nabud.Prelude.{
  ℕ, ◌+◌, ◌&&◌, zero, ◌^◌, ◌≤◌, List, [], ◌∷◌, ◌++◌, Bool, true, false, ◌==◌, leb, ltb,
  if◌then◌else◌,
}
use nabud.Prelude.{Option, none, some, ◌||◌}

pub data ImageChannelType : Type 0 where
  invalid pak nabu : ImageChannelType

pub record ImageChannel : Type 0 where
  pub type : ImageChannelType
  pub name : List ℕ
  pub path : List ℕ
  pub default_file : Option (List ℕ)
  pub number : ℕ
  pub retronet_enabled : Bool

-- The part of `struct nabu_connection` that says what is selected.
pub record Selection : Type 0 where
  pub channel : Option ImageChannel
  pub selected_file : Option (List ℕ)
  pub retronet_enabled : Bool

-- The list `image_channels`, in its order.
unfoldable pub image_channel_lookup : ℕ → List ImageChannel → Option ImageChannel
image_channel_lookup number [] = none
image_channel_lookup number (chan ∷ rest) =
    if chan.number == number then some chan else image_channel_lookup number rest

unfoldable pub conn_get_channel : Selection → Option ImageChannel
conn_get_channel s = s.channel

unfoldable pub conn_set_channel : ImageChannel → Selection → Selection
conn_set_channel chan s = record s {
  channel = some chan;
  retronet_enabled = chan.retronet_enabled;
  selected_file = none;
}

abbrev pub selected_or_default : Option (List ℕ) → Option ImageChannel → Option (List ℕ)
selected_or_default (some name) chan = some name
selected_or_default none (some chan) = chan.default_file
selected_or_default none none = none

-- `conn_get_selected_file` returns a copy of this; its loop goes round again only where another
-- thread changes the selection to a longer name between its two looks.
unfoldable pub conn_get_selected_file_logic : Selection → Option (List ℕ)
conn_get_selected_file_logic s = selected_or_default s.selected_file s.channel

unfoldable pub conn_set_selected_file : Option (List ℕ) → Selection → Selection
conn_set_selected_file name s = record s { selected_file = name }

abbrev select_found : Option ImageChannel → Selection → Selection
select_found none s = s
select_found (some chan) s = conn_set_channel chan s

-- `channel` is an `int16_t`, given by its 16 bits; it is negative from 0x8000 on.
unfoldable pub image_channel_select : List ImageChannel → ℕ → Selection → Selection
image_channel_select channels channel s =
    if ltb channel 1 || leb 0x8000 channel || ltb 0x100 channel
    then s
    else select_found (image_channel_lookup channel channels) s
