-- ===== src/Devices.antt =====
-- Input devices that come and go, and their settings: `keyboard::create` and `apply_config`, `pointer::create` and
-- `apply_config`, `switch_device::create`, `server::on_new_input` and `input_reconfigure` of src/input.cc, and
-- `tablet_tool::create` and `tablet_pad::create` of src/tablet.cc. A device is known by its address; what xkbcommon
-- and libinput say of it is an argument.
use Prim.Native.String.{String}
use text.Mathlib.Text.{◌==◌ as str_eq}
use steppewm.Base.{
  ℕ, ℤ, Bool, true, false, not, Option, none, some, List, [], ◌∷◌, if◌then◌else◌, remove, ◌==◌,
}
use steppewm.State.{Server, refresh_taskbars}
use steppewm.Settings.{Options}

-- `struct xkb_rule_names`: an empty text of the configuration stays null.
pub record Rules : Type 0 where
  pub rule_layout : Option String
  pub rule_variant : Option String
  pub rule_options : Option String

pub data Profile : Type 0 where
  flat adaptive : Profile

-- The calls of wlroots and libinput for a device.
pub data DeviceCall (F : Type 0) : Type 0 where
  keyboard_set_keymap : ℕ → ℕ → DeviceCall F
  keymap_error : String → DeviceCall F
  keyboard_set_repeat_info : ℕ → ℤ → ℤ → DeviceCall F
  set_keyboard : ℕ → DeviceCall F
  attach_input_device : ℕ → DeviceCall F
  tap_set_enabled : ℕ → Bool → DeviceCall F
  set_natural_scroll : ℕ → Bool → DeviceCall F
  accel_set_speed : ℕ → F → DeviceCall F
  accel_set_profile : ℕ → Profile → DeviceCall F
  tablet_create : ℕ → DeviceCall F
  tablet_pad_create : ℕ → DeviceCall F
  seat_set_capabilities : Bool → DeviceCall F

-- What libinput says of a pointer: whether it can tap, scroll naturally and be accelerated.
pub record Libinput : Type 0 where
  pub can_tap : Bool
  pub has_natural_scroll : Bool
  pub can_accelerate : Bool

-- A pointer with its libinput handle, if it has one.
pub record PointerDevice : Type 0 where
  pub device : ℕ
  pub handle : Option Libinput

pub data Device : Type 0 where
  keyboard_device : ℕ → Device
  pointer_device : PointerDevice → Device
  switch_device tablet_device tablet_pad_device : ℕ → Device
  other_device : Device

-- The server with its lists of devices and the calls made for them, the newest first.
pub record Inputs (F : Type 0) : Type 0 where
  pub srv : Server
  pub keyboards : List ℕ
  pub pointers : List PointerDevice
  pub switches : List ℕ
  pub tablet_tools : List ℕ
  pub tablet_pads : List ℕ
  pub device_calls : List (DeviceCall F)

unfoldable pub non_empty : String → Option String
non_empty text = if str_eq text "" then none else some text

unfoldable pub is_empty : List ℕ → Bool
is_empty [] = true
is_empty (x ∷ xs) = false

-- `lt` compares floats, `low` and `high` are -1.0 and 1.0; `compile` is `xkb_keymap_new_from_names`.
module _ {F : Type 0} (lt : F → F → Bool) (low high : F) (compile : Rules → Option ℕ) where
  unfoldable pub rules_of : Options F → Rules
  rules_of o = record {
    rule_layout = non_empty o.xkb_layout;
    rule_variant = non_empty o.xkb_variant;
    rule_options = non_empty o.xkb_options;
  }

  unfoldable pub keymap_call : ℕ → Options F → Option ℕ → DeviceCall F
  keymap_call k o none = keymap_error o.xkb_layout
  keymap_call k o (some keymap) = keyboard_set_keymap k keymap

  -- `keyboard::apply_config`.
  unfoldable pub configure_keyboard : Options F → ℕ → List (DeviceCall F) → List (DeviceCall F)
  configure_keyboard o k cs =
      keyboard_set_repeat_info k o.repeat_rate o.repeat_delay
      ∷ keymap_call k o (compile (rules_of o))
      ∷ cs

  unfoldable pub clamp_speed : F → F
  clamp_speed speed =
      let at_least = if lt speed low then low else speed in
      if lt high at_least then high else at_least

  unfoldable pub set_profile : ℕ → String → List (DeviceCall F) → List (DeviceCall F)
  set_profile d profile cs =
      if str_eq profile "flat"
      then accel_set_profile d flat ∷ cs
      else if str_eq profile "adaptive"
      then accel_set_profile d adaptive ∷ cs
      else cs

  -- `pointer::apply_config`.
  unfoldable pub configure_pointer :
      Options F → PointerDevice → List (DeviceCall F) → List (DeviceCall F)
  configure_pointer o p cs = elim p.handle [
    | none ↦ cs
    | some h ↦
        let d = p.device in
        let cs1 = if h.can_tap then tap_set_enabled d o.tap_to_click ∷ cs else cs in
        let cs2 =
          if h.has_natural_scroll then set_natural_scroll d o.natural_scroll ∷ cs1 else cs1 in
        if h.can_accelerate
        then set_profile d o.accel_profile (accel_set_speed d (clamp_speed o.pointer_accel) ∷ cs2)
        else cs2
  ]

  unfoldable pub log_calls : (List (DeviceCall F) → List (DeviceCall F)) → Inputs F → Inputs F
  log_calls f i = record i { device_calls = f i.device_calls }

  -- `keyboard::create`.
  unfoldable pub create_keyboard : Options F → ℕ → Inputs F → Inputs F
  create_keyboard o k i =
      let i1 = log_calls (λ cs. set_keyboard k ∷ configure_keyboard o k cs) i in
      record i1 { keyboards = k ∷ i1.keyboards; srv = refresh_taskbars i1.srv }

  -- `pointer::create`.
  unfoldable pub create_pointer : Options F → PointerDevice → Inputs F → Inputs F
  create_pointer o p i =
      let i1 = log_calls (λ cs. configure_pointer o p (attach_input_device p.device ∷ cs)) i in
      record i1 { pointers = p ∷ i1.pointers }

  -- The `create` of the kind of the device.
  unfoldable pub create_device : Options F → Device → Inputs F → Inputs F
  create_device o (keyboard_device k) i = create_keyboard o k i
  create_device o (pointer_device p) i = create_pointer o p i
  create_device o (switch_device d) i = record i { switches = d ∷ i.switches }
  create_device o (tablet_device d) i =
      let i1 = log_calls (λ cs. tablet_create d ∷ cs) i in
      record i1 { tablet_tools = d ∷ i1.tablet_tools }
  create_device o (tablet_pad_device d) i =
      let i1 = log_calls (λ cs. tablet_pad_create d ∷ cs) i in
      record i1 { tablet_pads = d ∷ i1.tablet_pads }
  create_device o other_device i = i

  -- `server::on_new_input`; the seat always has a pointer.
  unfoldable pub on_new_input : Options F → Device → Inputs F → Inputs F
  on_new_input o d i =
      let i1 = create_device o d i in
      log_calls (λ cs. seat_set_capabilities (not (is_empty i1.keyboards)) ∷ cs) i1

  unfoldable pub configure_keyboards :
      Options F → List ℕ → List (DeviceCall F) → List (DeviceCall F)
  configure_keyboards o [] cs = cs
  configure_keyboards o (k ∷ ks) cs = configure_keyboards o ks (configure_keyboard o k cs)

  unfoldable pub configure_pointers :
      Options F → List PointerDevice → List (DeviceCall F) → List (DeviceCall F)
  configure_pointers o [] cs = cs
  configure_pointers o (p ∷ ps) cs = configure_pointers o ps (configure_pointer o p cs)

  -- `server::input_reconfigure`.
  unfoldable pub input_reconfigure : Options F → Inputs F → Inputs F
  input_reconfigure o i =
      log_calls (λ cs. configure_pointers o i.pointers (configure_keyboards o i.keyboards cs)) i

unfoldable pub without_pointer : ℕ → List PointerDevice → List PointerDevice
without_pointer d [] = []
without_pointer d (p ∷ ps) =
    let rest = without_pointer d ps in if p.device == d then rest else p ∷ rest

-- The `handle_destroy` or `destroy` of the kind of the device; the seat keeps its capabilities.
unfoldable pub remove_device : {F : Type 0} → Device → Inputs F → Inputs F
remove_device (keyboard_device k) i = record i { keyboards = remove k i.keyboards }
remove_device (pointer_device p) i = record i { pointers = without_pointer p.device i.pointers }
remove_device (switch_device d) i = record i { switches = remove d i.switches }
remove_device (tablet_device d) i = record i { tablet_tools = remove d i.tablet_tools }
remove_device (tablet_pad_device d) i = record i { tablet_pads = remove d i.tablet_pads }
remove_device other_device i = i
