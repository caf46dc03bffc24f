-- ===== src/Channel/Tests.antt =====
-- A table of two channels, and connections that select from it.
use nabud.Prelude.{◌≡◌, [], ◌∷◌, none, some, refl, true, false, ◌⊎◌}
use nabud.Channel.{ImageChannel, Selection, pak, nabu, image_channel_lookup}
use nabud.Channel.{image_channel_select, conn_set_channel, conn_get_selected_file_logic}
use nabud.Prelude.Monad.{Outcome, done, blocked, fault}
use nabud.Channel.Add.{ImageAddChannelArgs, Tables, image_add_channel, lookup_linked}
use nabud.Channel.Select.{Selectable, select_cases}

abbrev games : ImageChannel
games = record {
  type = nabu;
  name = b'g' ∷ [];
  path = b'/' ∷ b'g' ∷ [];
  default_file = some (b'm' ∷ []);
  number = 2;
  retronet_enabled = false;
}

abbrev cycle : ImageChannel
cycle = record {
  type = pak;
  name = b'c' ∷ [];
  path = b'/' ∷ b'c' ∷ [];
  default_file = none;
  number = 1;
  retronet_enabled = true;
}

abbrev fresh : Selection
fresh = record { channel = some cycle; selected_file = some (b'x' ∷ []); retronet_enabled = true }

abbrev tables : Tables
tables = record {
  image_sources = record { name = b's' ∷ []; root = b'/' ∷ [] } ∷ [];
  image_source_count = 1;
  image_channels = cycle ∷ games ∷ [];
  image_channel_count = 2;
  freed = [];
}

abbrev third : ImageAddChannelArgs
third = record {
  type = nabu;
  name = b't' ∷ [];
  source = b's' ∷ [];
  relpath = some (b'/' ∷ b'/' ∷ b'd' ∷ []);
  default_file = none;
  number = 3;
  retronet_enabled = false;
}

-- The channel 2 is selected, and its default file with it.
selects_games :
    conn_get_selected_file_logic (image_channel_select (cycle ∷ games ∷ []) 2 fresh)
    ≡ some (b'm' ∷ [])
unfolding conn_get_selected_file_logic image_channel_select image_channel_lookup conn_set_channel
selects_games = refl

select_cases_example :
    ((image_channel_select (cycle ∷ games ∷ []) 2 fresh ≡ fresh)
      × (¬ Selectable 2 ⊎ (image_channel_lookup 2 (cycle ∷ games ∷ []) ≡ none)))
    ⊎ ((chan : ImageChannel) × (image_channel_lookup 2 (cycle ∷ games ∷ []) ≡ some chan)
        × (chan.number ≡ 2)
        × Selectable 2
        × (image_channel_select (cycle ∷ games ∷ []) 2 fresh ≡ conn_set_channel chan fresh)
        × (conn_get_selected_file_logic (image_channel_select (cycle ∷ games ∷ []) 2 fresh)
            ≡ chan.default_file))
select_cases_example = select_cases (cycle ∷ games ∷ []) 2 fresh

-- The number of `games`.
abbrev taken : ImageAddChannelArgs
taken = record third { number = 2 }

-- What adding a channel of a number that is taken leaves: the next one is added by reading memory
-- that has been freed.
abbrev after_taken : Outcome Tables
after_taken = elim (image_add_channel true taken tables) [
  | done t ↦ image_add_channel true third t
  | blocked ↦ blocked
  | fault ↦ blocked
]

reads_freed : after_taken ≡ fault
unfolding image_add_channel lookup_linked
reads_freed = refl
