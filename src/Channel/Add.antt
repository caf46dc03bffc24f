-- ===== src/Channel/Add.antt =====
-- nabud/image.c: the sources and channels that the configuration adds.
use nabud.Prelude.{ℕ, ◌+◌, ◌&&◌, ◌||◌, List, [], ◌∷◌, ◌++◌, Bool, true, false, ◌==◌, if◌then◌else◌}
use nabud.Prelude.{Option, none, some}
use nabud.Prelude.Monad.{Outcome, done, blocked, fault}
use nabud.Channel.{ImageChannel, ImageChannelType}

pub record ImageSource : Type 0 where
  pub name : List ℕ
  pub root : List ℕ

pub record ImageAddChannelArgs : Type 0 where
  pub type : ImageChannelType
  pub name : List ℕ
  pub source : List ℕ
  pub relpath : Option (List ℕ)
  pub default_file : Option (List ℕ)
  pub number : ℕ
  pub retronet_enabled : Bool

-- The two lists and their counters. `freed` has the numbers of the channels on the list whose memory
-- has been freed; no two channels on it have the same number.
pub record Tables : Type 0 where
  pub image_sources : List ImageSource
  pub image_source_count : ℕ
  pub image_channels : List ImageChannel
  pub image_channel_count : ℕ
  pub freed : List ℕ

-- `strcmp(a, b) == 0`
abbrev pub str_eq : List ℕ → List ℕ → Bool
str_eq [] [] = true
str_eq [] (b ∷ bs) = false
str_eq (a ∷ as') [] = false
str_eq (a ∷ as') (b ∷ bs) = a == b && str_eq as' bs

unfoldable pub image_source_lookup : List ℕ → List ImageSource → Option ImageSource
image_source_lookup name [] = none
image_source_lookup name (src ∷ rest) =
    if str_eq src.name name then some src else image_source_lookup name rest

-- A name that is there already is refused, and nothing is added where memory is short.
unfoldable pub image_add_source : Bool → List ℕ → List ℕ → Tables → Tables
unfolding image_source_lookup
image_add_source calloc_ok name root t = elim (image_source_lookup name t.image_sources) [
  | some src ↦ t
  | none ↦
      if calloc_ok
      then record t {
        image_sources = record { name = name; root = root } ∷ t.image_sources;
        image_source_count = t.image_source_count + 1;
      }
      else t
]

-- Get rid of leading slashes.
abbrev pub skip_slashes : List ℕ → List ℕ
skip_slashes [] = []
skip_slashes (c ∷ cs) = if c == b'/' then skip_slashes cs else c ∷ cs

abbrev pub or_name : List ℕ → List ℕ → List ℕ
or_name [] name = name
or_name (c ∷ cs) name = c ∷ cs

abbrev pub relative_path : Option (List ℕ) → List ℕ → List ℕ
relative_path none name = name
relative_path (some path) name = or_name (skip_slashes path) name

unfoldable pub new_channel : ImageAddChannelArgs → ImageSource → ImageChannel
new_channel args src = record {
  type = args.type;
  name = args.name;
  path = src.root ++ (b'/' ∷ relative_path args.relpath args.name);
  default_file = args.default_file;
  number = args.number;
  retronet_enabled = args.retronet_enabled;
}

-- `TAILQ_INSERT_TAIL` and the counter.
unfoldable pub insert_channel : ImageChannel → Tables → Tables
insert_channel chan t = record t {
  image_channels = t.image_channels ++ (chan ∷ []);
  image_channel_count = t.image_channel_count + 1;
}

abbrev pub among : ℕ → List ℕ → Bool
among n [] = false
among n (m ∷ ms) = m == n || among n ms

-- `image_channel_lookup` on the list of the tables: to read the number of a channel whose memory has
-- been freed is a fault.
unfoldable pub lookup_linked : List ℕ → ℕ → List ImageChannel → Outcome (Option ImageChannel)
lookup_linked freed number [] = done none
lookup_linked freed number (chan ∷ rest) =
    let further = lookup_linked freed number rest in
    if among chan.number freed
    then fault
    else if chan.number == number
    then done (some chan)
    else further

-- At `bad`, `chan` is freed if it is set. After a lookup that has found a channel it is that one,
-- which stays on the list; memory that has been allocated for a new one is not on it.
abbrev pub free_found : ImageChannel → Tables → Tables
free_found chan t = record t { freed = chan.number ∷ t.freed }

abbrev pub add_unless :
    Bool
    → ImageSource
    → ImageAddChannelArgs
    → Tables
    → Outcome (Option ImageChannel)
    → Outcome Tables
add_unless malloc_ok src args t (done (some chan)) = done (free_found chan t)
add_unless malloc_ok src args t (done none) =
    if malloc_ok then done (insert_channel (new_channel args src) t) else done t
add_unless malloc_ok src args t blocked = blocked
add_unless malloc_ok src args t fault = fault

abbrev pub add_to_source : Bool → Option ImageSource → ImageAddChannelArgs → Tables → Outcome Tables
add_to_source malloc_ok none args t = done t
add_to_source malloc_ok (some src) args t =
    add_unless malloc_ok src args t (lookup_linked t.freed args.number t.image_channels)

-- The source has to be known and the number new. `malloc_ok` says whether there is memory for the
-- descriptor and its path.
unfoldable pub image_add_channel : Bool → ImageAddChannelArgs → Tables → Outcome Tables
unfolding new_channel insert_channel image_source_lookup
image_add_channel malloc_ok args t =
    add_to_source malloc_ok (image_source_lookup args.source t.image_sources) args t
