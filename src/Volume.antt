-- ===== src/Volume.antt =====
-- The volume: `volume_monitor` of src/volume.cc, which follows PulseAudio's default sink in a thread of its own and
-- wakes the main thread when the volume changes. PulseAudio is not part of the repository: what it reports is an
-- argument.
pub mod Threads
pub mod Shown
use steppewm.Base.{
  ℕ, zero, suc, ◌+◌, ◌*◌, ◌/◌, ◌%◌, ◌^◌, ℤ, pos, Bool, true, false, not, ◌&&◌, ◌||◌, Option, none,
  some, List, [], ◌∷◌, ◌++◌, if◌then◌else◌, Bytes, codes, print_to, same, is_empty,
}
use steppewm.Wlr.{osd_show_text}
use steppewm.State.{Server, emit_if, refresh_taskbars}

-- `PA_VOLUME_NORM`.
abbrev pub volume_norm : ℕ
volume_norm = 0x10000

-- The percentage of an average volume; `pa_volume_t` is a 32-bit number.
unfoldable pub percent_of : ℕ → ℕ
percent_of avg = (avg * 100 + volume_norm / 2) % 2 ^ 32 / volume_norm

-- `pa_sink_info`: the name of a sink, the average of its volume, and whether it is muted.
pub record SinkInfo : Type 0 where
  pub name : Bytes
  pub avg : ℕ
  pub mute : Bool

-- The test of `on_sink_info`: "only update if this sink is the default one we're tracking".
unfoldable pub is_tracked : Bytes → SinkInfo → Bool
is_tracked sink_name info = is_empty sink_name || same info.name sink_name

abbrev pub or_nothing : Option Bytes → Bytes
or_nothing none = []
or_nothing (some name) = name

-- The name that `on_server_info` keeps of the default sink: `strncpy(sink_name_, …, sizeof(sink_name_) - 1)`.
unfoldable pub sink_name_of : Option Bytes → Bytes
sink_name_of default_sink = print_to 255 (or_nothing default_sink)

-- What the overlay shows: nothing yet, that the sound is off, or a level.
pub data Display : Type 0 where
  nothing muted_text : Display
  level_text : ℤ → Display

unfoldable pub display_of : ℤ → Bool → Display
display_of volume muted = if muted then muted_text else level_text volume

-- The text for it; `to_string` writes a number.
unfoldable pub text_of : (ℤ → Bytes) → Display → Bytes
text_of to_string nothing = []
text_of to_string muted_text = codes "VOL MUTE"
text_of to_string (level_text n) = codes "VOL " ++ to_string n ++ codes "%"

-- `on_wake` once the counter is read: the bars and the overlay show the volume, whose text is cut to 31 bytes.
unfoldable pub on_wake : (ℤ → Bytes) → ℤ → Bool → Server → Server
on_wake to_string volume muted s =
    let s1 = refresh_taskbars s in
    emit_if s1.osd_overlay
      (osd_show_text (print_to 31 (text_of to_string (display_of volume muted)))) s1
