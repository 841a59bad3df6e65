-- ===== src/Tests/Members.antt =====
-- Signed rosters at concrete inputs.
use bencchat.Prelude.{inl, inr, length, ◌≡◌, refl, arith, true, [], ◌∷◌, ◌++◌, Any}
use bencchat.E2ee.Roster.Verifying.{verify_roster_sound, verify_roster-sign_roster}
use bencchat.E2ee.Roster.RoundTrip.{IsText, decode_roster-encode_roster}
use bencchat.Prelude.Bytes.{bytes_eq}
use bencchat.Prelude.Outcome.{ok}
use bencchat.Text.Ascii.{bytes}
use bencchat.Text.Base64
use bencchat.Text.Hex
use bencchat.E2ee.RoomSign.{signer_id}
use bencchat.E2ee.Roster.{
  Roster, roster_prefix, roster_body, roster_signing_context, encode_roster, decode_roster,
  sign_roster, verify_roster, some_key_verifies, within_bounds,
}
use bencchat.E2ee.Roster.Context.{IsSized, roster_signing_context_injective}
use bencchat.Tests.Toy.{fill, fill_bytes, toy, key_pair, toy-IsCrypto, key_pair-IsKeyPair}

abbrev draft : Roster
draft = record {
  room = bytes "lobby";
  epoch = 300;
  members = bytes "ann" ∷ bytes "bob" ∷ [];
  removed = bytes "eve" ∷ [];
  owner = bytes "ann";
  author = bytes "ann";
  signer = [];
  signature = [];
}

abbrev signed : Roster
signed = record draft { signer = signer_id toy (7 ∷ []); signature = fill 64 7 }

sign_roster_signs : sign_roster toy draft key_pair ≡ ok signed
unfolding sign_roster roster_signing_context within_bounds
sign_roster_signs = refl

draft-IsSized : IsSized draft
draft-IsSized = record {
  room_size = omega arith;
  owner_size = omega arith;
  author_size = omega arith;
  epoch_size = omega arith;
  members_size = omega arith;
  member_size = omega arith;
  removed_size = omega arith;
  each_size = omega arith;
}

signed-IsSized : IsSized signed
signed-IsSized = record {
  room_size = omega arith;
  owner_size = omega arith;
  author_size = omega arith;
  epoch_size = omega arith;
  members_size = omega arith;
  member_size = omega arith;
  removed_size = omega arith;
  each_size = omega arith;
}

roster_signing_context_injective_example :
    (draft.room ≡ signed.room)
    × (draft.owner ≡ signed.owner)
    × (draft.author ≡ signed.author)
    × (draft.epoch ≡ signed.epoch)
    × (draft.members ≡ signed.members)
    × (draft.removed ≡ signed.removed)
roster_signing_context_injective_example =
    roster_signing_context_injective draft signed draft-IsSized signed-IsSized
      (unfold roster_signing_context in refl)

verify_roster_sound_example :
    (length signed.signature ≡ 64)
    × Any
        (λ k.
          (signer_id toy k ≡ signed.signer)
          × (toy.verify k (roster_signing_context signed) signed.signature ≡ true))
        ((8 ∷ []) ∷ (7 ∷ []) ∷ [])
unfolding some_key_verifies bytes_eq signer_id Hex.encode
verify_roster_sound_example =
    verify_roster_sound toy signed ((8 ∷ []) ∷ (7 ∷ []) ∷ []) (unfold verify_roster in refl)

verify_roster-sign_roster_example : verify_roster toy signed ((8 ∷ []) ∷ (7 ∷ []) ∷ []) ≡ true
verify_roster-sign_roster_example =
    verify_roster-sign_roster toy toy-IsCrypto key_pair key_pair-IsKeyPair draft signed
      ((8 ∷ []) ∷ (7 ∷ []) ∷ []) (inr (inl refl)) sign_roster_signs

signed-IsText : IsText signed
unfolding signer_id Hex.encode
signed-IsText = record {
  room_bytes = omega arith;
  owner_bytes = omega arith;
  author_bytes = omega arith;
  signer_bytes = omega arith;
  member_bytes = (omega arith, (omega arith, tt));
  removed_bytes = (omega arith, tt);
  signature_bytes = fill_bytes 64 7 (omega arith);
}

decode_roster-encode_roster_example :
    decode_roster (roster_prefix ++ Base64.encode (roster_body signed)) ≡ ok signed
unfolding signer_id Hex.encode within_bounds
decode_roster-encode_roster_example =
    decode_roster-encode_roster signed (roster_prefix ++ Base64.encode (roster_body signed))
      signed-IsSized (omega arith) (omega arith) signed-IsText (unfold encode_roster in refl)
