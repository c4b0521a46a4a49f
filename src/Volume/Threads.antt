-- ===== src/Volume/Threads.antt =====
-- The two threads of src/volume.cc, step by step: `on_sink_info` and `on_server_info` in PulseAudio's thread,
-- `on_wake` in the main thread, with the atomics `volume_` and `muted_` and the counter of the eventfd between them.
use steppewm.Base.{ℕ, ◌+◌, ◌<◌, ℤ, pos, eqb_ℤ, Bool, true, false, not, ◌||◌, Option, ◌≡◌, Bytes}
use steppewm.View.{bool_eq}
use steppewm.Volume.{SinkInfo, percent_of, is_tracked, sink_name_of, Display, display_of}

-- Where PulseAudio's thread is: outside `on_sink_info`, before the exchange of the volume, before that of
-- `muted_`, with what differed so far, or before the test that notifies.
pub data Pulse : Type 0 where
  outside : Pulse
  before_volume : ℤ → Bool → Pulse
  before_muted : Bool → Bool → Pulse
  before_notify : Bool → Pulse

-- Where the main thread is: outside `on_wake`, before it reads `muted_`, or before it reads `volume_`.
pub data Main : Type 0 where
  waiting reads_muted reads_volume : Main

-- `volume_monitor`, with the threads and what the overlay shows. `wakes` is the counter of the eventfd.
pub record Monitor : Type 0 where
  pub volume : ℤ
  pub muted : Bool
  pub sink_name : Bytes
  pub wakes : ℕ
  pub pulse : Pulse
  pub main : Main
  pub shown : Display

-- A step of one thread.
pub data Step : Monitor → Monitor → Type 0 where
  -- PulseAudio reports a sink, which is the one that is tracked or not.
  sink_info :
      (m : Monitor) (info : SinkInfo)
      → m.pulse ≡ outside
      → is_tracked m.sink_name info ≡ true
      → Step m (record m { pulse = before_volume (pos (percent_of info.avg)) info.mute })
  other_sink :
      (m : Monitor) (info : SinkInfo)
      → m.pulse ≡ outside
      → is_tracked m.sink_name info ≡ false
      → Step m m
  server_info :
      (m : Monitor) (default_sink : Option Bytes)
      → m.pulse ≡ outside
      → Step m (record m { sink_name = sink_name_of default_sink })
  -- `volume_.exchange(pct)`, `muted_.exchange(muted)`, and `notify` if something differed.
  exchange_volume :
      (m : Monitor) (pct : ℤ) (mute : Bool)
      → m.pulse ≡ before_volume pct mute
      → Step m (record m { volume = pct; pulse = before_muted mute (not (eqb_ℤ pct m.volume)) })
  exchange_muted :
      (m : Monitor) (mute differs : Bool)
      → m.pulse ≡ before_muted mute differs
      → Step m
          (record m { muted = mute; pulse = before_notify (differs || not (bool_eq mute m.muted)) })
  notify :
      (m : Monitor)
      → m.pulse ≡ before_notify true
      → Step m (record m { wakes = m.wakes + 1; pulse = outside })
  no_notify : (m : Monitor) → m.pulse ≡ before_notify false → Step m (record m { pulse = outside })
  -- `on_wake` empties the counter, and shows the text in the overlay.
  wake :
      (m : Monitor)
      → m.main ≡ waiting
      → 0 < m.wakes
      → Step m (record m { wakes = 0; main = reads_muted })
  read_muted :
      (m : Monitor)
      → m.main ≡ reads_muted
      → m.muted ≡ true
      → Step m (record m { main = waiting; shown = display_of m.volume true })
  read_unmuted :
      (m : Monitor)
      → m.main ≡ reads_muted
      → m.muted ≡ false
      → Step m (record m { main = reads_volume })
  read_volume :
      (m : Monitor)
      → m.main ≡ reads_volume
      → Step m (record m { main = waiting; shown = display_of m.volume false })

-- What both threads may do from a state.
pub data Reach (m : Monitor) : Monitor → Type 0 where
  here : Reach m m
  next : {n r : Monitor} → Reach m n → Step n r → Reach m r
