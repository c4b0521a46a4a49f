-- ===== src/Volume/Shown.antt =====
-- What the overlay shows while the two threads of src/volume.cc run.
use steppewm.Base.{
  ◌<◌, ℤ, eqb_ℤ, Bool, true, false, ◌≡◌, ◌⊎◌, inl, inr, refl, sym, ◌∙◌, arith, Bool-cases,
}
use steppewm.View.{bool_eq}
use steppewm.Volume.{display_of}
use steppewm.Volume.Threads.{
  Pulse, outside, before_muted, before_notify, Main, waiting, reads_muted, reads_volume, Monitor,
  Step, sink_info, other_sink, server_info, exchange_volume, exchange_muted, notify, no_notify,
  wake, read_muted, read_unmuted, read_volume, Reach, here, next,
}

abbrev pub will_notify : Pulse → Bool
will_notify (before_muted mute differs) = differs
will_notify (before_notify differs) = differs
will_notify _ = false

-- The main thread will show the present values without being woken again.
abbrev pub Shows : Main → Monitor → Type 0
Shows waiting m = m.shown ≡ display_of m.volume m.muted
Shows reads_muted m = Unit
Shows reads_volume m = m.muted ≡ false

-- Either the main thread will be woken, or what it does or has done shows the present values.
abbrev pub IsFollowed : Monitor → Type 0
IsFollowed m = ((0 < m.wakes) ⊎ (will_notify m.pulse ≡ true)) ⊎ Shows m.main m

eqb_ℤ→eq : (a b : ℤ) → eqb_ℤ a b ≡ true → a ≡ b
eqb_ℤ→eq a b h = ground arith

bool_eq→eq : (a b : Bool) → bool_eq a b ≡ true → a ≡ b
unfolding bool_eq
bool_eq→eq a b h = ground arith

-- `Shows` looks at three fields.
Shows-same :
    (m n : Monitor)
    → n.main ≡ m.main
    → n.volume ≡ m.volume
    → n.muted ≡ m.muted
    → n.shown ≡ m.shown
    → Shows m.main m
    → Shows n.main n
Shows-same m n e v u d h = by_main m.main (sym e) h
  where
    by_main : (k : Main) → k ≡ n.main → Shows k m → Shows n.main n
    by_main waiting e h = rw (← e) (d ∙ h ∙ rw (v, u) refl)
    by_main reads_muted e h = rw (← e) tt
    by_main reads_volume e h = rw (← e) (u ∙ h)

-- A step of PulseAudio's thread that leaves the atomics as they are, and does not give up to notify.
same_atomics :
    (m n : Monitor)
    → n.main ≡ m.main
    → n.volume ≡ m.volume
    → n.muted ≡ m.muted
    → n.shown ≡ m.shown
    → n.wakes ≡ m.wakes
    → (will_notify m.pulse ≡ true → will_notify n.pulse ≡ true)
    → IsFollowed m
    → IsFollowed n
same_atomics m n e v u d k p (inl (inl h)) = inl (inl (omega arith))
same_atomics m n e v u d k p (inl (inr h)) = inl (inr (p h))
same_atomics m n e v u d k p (inr h) = inr (Shows-same m n e v u d h)

settled :
    (n : Monitor)
    → IsFollowed n
    → n.main ≡ waiting
    → n.wakes ≡ 0
    → n.pulse ≡ outside
    → n.shown ≡ display_of n.volume n.muted
settled n (inl (inl h)) e k d = absurd (omega arith)
settled n (inl (inr h)) e k d = ground arith
settled n (inr s) e k d = rw e at s

Step-IsFollowed : {m n : Monitor} → Step m n → IsFollowed m → IsFollowed n
Step-IsFollowed (sink_info m info e t) f =
    same_atomics m _ refl refl refl refl refl (λ h. ground arith) f
Step-IsFollowed (other_sink m info e t) f = f
Step-IsFollowed (server_info m d e) f = same_atomics m _ refl refl refl refl refl (λ h. h) f
Step-IsFollowed (exchange_volume m pct mute e) f = elim (Bool-cases (eqb_ℤ pct m.volume)) [
  | inl q ↦ same_atomics m _ refl (eqb_ℤ→eq pct m.volume q) refl refl refl (λ h. ground arith) f
  | inr q ↦ inl (inr (rw q refl))
]
Step-IsFollowed (exchange_muted m mute differs e) f = elim (Bool-cases (bool_eq mute m.muted)) [
  | inl q ↦ same_atomics m _ refl refl (bool_eq→eq mute m.muted q) refl refl (λ h. ground arith) f
  | inr q ↦ inl (inr (rw q (ground arith)))
]
Step-IsFollowed (notify m e) f = inl (inl (omega arith))
Step-IsFollowed (no_notify m e) f = same_atomics m _ refl refl refl refl refl (λ h. ground arith) f
Step-IsFollowed (wake m e h) f = inr tt
Step-IsFollowed (read_muted m e h) f = inr (rw h refl)
Step-IsFollowed (read_unmuted m e h) f = inr h
Step-IsFollowed (read_volume m e) (inl f) = inl f
Step-IsFollowed (read_volume m e) (inr s) = let h : m.muted ≡ false = rw e at s in inr (rw h refl)

pub Reach-IsFollowed : {m n : Monitor} → IsFollowed m → Reach m n → IsFollowed n
Reach-IsFollowed f here = f
Reach-IsFollowed f (next r s) = Step-IsFollowed s (Reach-IsFollowed f r)

-- However the steps of the two threads interleave, from a state in which the overlay shows the present values
-- and nothing is under way: whenever again the main thread waits, it has not been woken, and
-- PulseAudio's thread is outside `on_sink_info`, the overlay shows the present values.
pub Reach-shown :
    (m n : Monitor)
    → Reach m n
    → m.main ≡ waiting
    → m.shown ≡ display_of m.volume m.muted
    → n.main ≡ waiting
    → n.wakes ≡ 0
    → n.pulse ≡ outside
    → n.shown ≡ display_of n.volume n.muted
Reach-shown m n r idle shown idle' calm done =
    settled n (Reach-IsFollowed (inr (rw idle shown)) r) idle' calm done
