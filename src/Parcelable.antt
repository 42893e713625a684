-- ===== src/Parcelable.antt =====
-- IFdbParcelable and the containers over it (public/fdbus/CFdbSimpleSerializer.h): what can be sent
-- is an interface, and CFdbRepeatedParcelable builds an array of what can be sent.
pub mod Codec
pub mod Arrays
pub mod ByteArray
pub mod Exchange
use fdbus.Prelude.{ℕ, zero, suc, ◌%◌, Bool, true, false, some, List, [], ◌∷◌, length, if◌then◌else◌}
use fdbus.Serializer.{Ser, ◌>>◌, skip, serialize_scalar, put_string, u16_mod}
use fdbus.Deserializer.{Des, pure, ◌>>=◌, deserialize_scalar, get_string}

-- `deserialize` takes the object as it was; `fresh` is a newly constructed one.
pub record Parcelable (A : Type 0) : Type 0 where
  pub fresh : A
  pub serialize : A → Ser
  pub deserialize : A → Des A

-- `if (deserializer.error()) { return; }`
unfoldable pub unless_error : {A : Type 0} → A → Des A → Des A
unless_error old m d = if d.error then some (old, d) else m d

abbrev pub text : Bool → Parcelable (List ℕ)
text little = record { fresh = []; serialize = put_string little; deserialize = get_string little }

-- CFdbRepeatedParcelable<T>
module _ (little : Bool) {A : Type 0} (p : Parcelable A) where
  unfoldable pub serialize_each : List A → Ser
  unfolding ◌>>◌ skip
  serialize_each [] = skip
  serialize_each (x ∷ xs) = p.serialize x >> serialize_each xs

  unfoldable pub put_array : List A → Ser
  unfolding serialize_scalar serialize_each
  put_array pool = serialize_scalar little 2 (length pool % u16_mod) >> serialize_each pool

  -- `mPool.resize(size)`
  unfoldable pub resize : ℕ → List A → List A
  resize zero pool = []
  resize (suc n) [] = p.fresh ∷ resize n []
  resize (suc n) (x ∷ pool) = x ∷ resize n pool

  unfoldable pub deserialize_each : List A → Des (List A)
  unfolding unless_error ◌>>=◌ pure
  deserialize_each [] = pure []
  deserialize_each (x ∷ xs) =
      let rest = deserialize_each xs in
      unless_error (x ∷ xs) (do y ← p.deserialize x; ys ← rest; pure (y ∷ ys))

  unfoldable pub get_array : List A → Des (List A)
  unfolding unless_error deserialize_scalar resize deserialize_each
  get_array pool =
      unless_error pool
        (do size ← deserialize_scalar little 2 0; deserialize_each (resize size pool))

abbrev pub array : {A : Type 0} → Bool → Parcelable A → Parcelable (List A)
array little p = record {
  fresh = [];
  serialize = put_array little p;
  deserialize = get_array little p;
}
