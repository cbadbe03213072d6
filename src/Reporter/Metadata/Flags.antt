-- ===== src/Reporter/Metadata/Flags.antt =====
-- The sampled bit of the flags.
use appoptics_apm_go.Base.{◌/◌, ◌≡◌, refl, Bool, true, false, not, arith, bit_or, bit_xor}
use appoptics_apm_go.Base.Bits.{bit_or-one, bit_xor-one, bit_and-one}
use appoptics_apm_go.Reporter.Metadata.{OboeMetadata, is_sampled, set_sampled}

turns : (md : OboeMetadata) → is_sampled (set_sampled false md) ≡ not (is_sampled md)
unfolding is_sampled set_sampled
turns md =
    ground (arith, bit_xor-one md.flags, bit_and-one (bit_xor md.flags 1), bit_and-one md.flags)

keeps_rest : (b : Bool) (md : OboeMetadata) → (set_sampled b md).flags / 2 ≡ md.flags / 2
unfolding set_sampled
keeps_rest true md = omega (arith, bit_or-one md.flags)
keeps_rest false md = omega (arith, bit_xor-one md.flags)

keeps_others : (b : Bool) (md : OboeMetadata) → record (set_sampled b md) { flags = md.flags } ≡ md
unfolding set_sampled
keeps_others true md = refl
keeps_others false md = refl

-- `SetSampled(true)` sets the bit. `SetSampled(false)` turns it: it clears the bit where it is set,
-- and sets it where it is not. Either leaves all other flags, and the rest of the metadata.
pub set_sampled_lem :
    (md : OboeMetadata)
    → (is_sampled (set_sampled true md) ≡ true)
      × (is_sampled (set_sampled false md) ≡ not (is_sampled md))
      × ((b : Bool) → (set_sampled b md).flags / 2 ≡ md.flags / 2)
      × ((b : Bool) → record (set_sampled b md) { flags = md.flags } ≡ md)
unfolding is_sampled set_sampled
set_sampled_lem md = (
  ground (arith, bit_or-one md.flags, bit_and-one (bit_or md.flags 1)),
  turns md,
  λ b. keeps_rest b md,
  λ b. keeps_others b md,
)
