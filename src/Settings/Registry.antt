-- ===== src/Settings/Registry.antt =====
-- The configured outputs as a map from names: `lua_output` and `find_output` of src/config.cc.
use Prim.Native.String.{String}
use text.Mathlib.Text.{◌==◌ as str_eq}
use text.Mathlib.TextEquality.{eq_iff}
use steppewm.Base.{
  ℤ, leb, Bool, true, false, not, ◌&&◌, Option, none, some, List, [], ◌∷◌, if◌then◌else◌, ◌≡◌, ◌∙◌,
  refl, ap, arith, length, is_some, Bool-cases, inl, inr,
}
use steppewm.Settings.{Env, OutputConfig, Settings}
use steppewm.Settings.Read.{or_old}
use steppewm.Settings.Calls.{max_output_cfgs}
use steppewm.Settings.Outputs.{
  OutputTable, Entry, find_output, put_output, entry_for, fresh, set_mode, read_mode, read_position,
  read_scale, read_transform, read_enabled, and_then, read_entry, lua_output,
}

if_twice {ℓ} :
    {A : Type ℓ} (b : Bool) (x y z : A)
    → (if b then x else z) ≡ (if b then x else if b then y else z)
if_twice true x y z = refl
if_twice false x y z = refl

other_name : (a n m : String) → str_eq a n ≡ true → str_eq a m ≡ false → str_eq m n ≡ false
other_name a n m h k = ground (arith, eq_iff a n, eq_iff a m, eq_iff m n)

module _ {F : Type 0} (env : Env F) where
  -- Reading a table does not change the entry's name.
  set_mode-name :
      (m : Option ℤ × Option ℤ × Option F) (o : OutputConfig F)
      → (set_mode env m o).oc.name ≡ o.name
  unfolding set_mode
  set_mode-name (width, height, hz) o = ground arith

  read_mode-name : (m : Option String) (o : OutputConfig F) → (read_mode env m o).oc.name ≡ o.name
  unfolding read_mode
  read_mode-name none o = refl
  read_mode-name (some s) o = set_mode-name (env.scan_mode s) o

  read_position-name :
      (p : Option (Option ℤ × Option ℤ)) (o : OutputConfig F)
      → (read_position env p o).oc.name ≡ o.name
  unfolding read_position
  read_position-name none o = refl
  read_position-name (some (none, y)) o = refl
  read_position-name (some (some x, none)) o = refl
  read_position-name (some (some x, some y)) o = refl

  read_scale-name : (f : Option F) (o : OutputConfig F) → (read_scale env f o).oc.name ≡ o.name
  unfolding read_scale
  read_scale-name none o = refl
  read_scale-name (some f) o = refl

  read_transform-name :
      (t : Option String) (o : OutputConfig F) → (read_transform env t o).oc.name ≡ o.name
  unfolding read_transform
  read_transform-name none o = refl
  read_transform-name (some s) o = refl

  and_then-name :
      (n : String) (e : Entry F) (next : OutputConfig F → Entry F)
      → e.oc.name ≡ n
      → ((o : OutputConfig F) → (next o).oc.name ≡ o.name)
      → (and_then env e next).oc.name ≡ n
  unfolding and_then
  and_then-name n e next h keeps = elim (Bool-cases e.raised) [
    | inl b ↦ rw b h
    | inr b ↦ rw b (keeps e.oc ∙ h)
  ]

  pub read_entry-name :
      (t : OutputTable F) (o : OutputConfig F) → (read_entry env t o).oc.name ≡ o.name
  unfolding read_entry read_enabled
  read_entry-name t o =
      and_then-name o.name _ (read_enabled env t.enabled)
        (and_then-name o.name _ (read_transform env t.transform)
          (and_then-name o.name _ (read_scale env t.scale)
            (and_then-name o.name _ (read_position env t.position) (read_mode-name t.mode o)
              (read_position-name t.position))
            (read_scale-name t.scale))
          (read_transform-name t.transform))
        (λ o. refl)

  -- One write of the list, at every name.
  find-put_output :
      (name n : String) (f : OutputConfig F → Entry F) (os : List (OutputConfig F))
      → env.cut 63 name ≡ name
      → ((o : OutputConfig F) → (f o).oc.name ≡ o.name)
      → find_output n (put_output env name f os)
        ≡ (if str_eq name n then some (f (entry_for env name os)).oc else find_output n os)
  unfolding find_output put_output entry_for fresh or_old
  find-put_output name n f [] short keeps =
      rw (ap (λ s. str_eq s n) (keeps (fresh env name) ∙ short)) refl
  find-put_output name n f (o ∷ os) short keeps = elim (Bool-cases (str_eq o.name name)) [
    | inl e ↦
        let same : o.name ≡ name = (eq_iff o.name name).0 e in
        rw (e, ap (λ s. str_eq s n) (keeps o ∙ same), ap (λ s. str_eq s n) same)
          (if_twice (str_eq name n) _ _ _)
    | inr e ↦ elim (Bool-cases (str_eq o.name n)) [
      | inl b ↦ rw (e, b, other_name o.name n name b e) refl
      | inr b ↦ rw (e, b) (find-put_output name n f os short keeps)
    ]
  ]

  -- The abstract view: a partial function from names, of which one call of `output` rewrites one value.
  abbrev pub OutputMap : Type 0
  OutputMap = String → Option (OutputConfig F)

  unfoldable pub rewritten : String → (OutputConfig F → OutputConfig F) → OutputMap → OutputMap
  rewritten name f outputs n =
      if str_eq name n then some (f (or_old (outputs name) (fresh env name))) else outputs n

  -- For a name of at most 63 bytes that is configured already or for which there is room: a call of `output`
  -- rewrites the entry of that name, a fresh one if there was none, and no other, as `find_output` sees
  -- them; also where the table is refused half-way.
  pub lua_output-rewritten :
      (name n : String) (t : OutputTable F) (c : Settings F)
      → env.cut 63 name ≡ name
      → (not (is_some (find_output name c.output_cfgs))
          && leb max_output_cfgs (length c.output_cfgs))
        ≡ false
      → find_output n (lua_output env (some name) (some t) c).cfg.output_cfgs
        ≡ rewritten name (λ o. (read_entry env t o).oc) (λ k. find_output k c.output_cfgs) n
  unfolding lua_output rewritten entry_for
  lua_output-rewritten name n t c short room =
      rw room (find-put_output name n (read_entry env t) c.output_cfgs short (read_entry-name t))
