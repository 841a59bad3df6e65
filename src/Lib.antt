-- ===== src/Lib.antt =====
-- BENCchat: a chat client over the OSCAR protocol with end-to-end encrypted rooms.
--
-- The program's parts. internal/e2ee holds the cryptographic formats: a room member encrypts under a
-- message chain of its own, whose keys are derived one position after the other, and hands views of
-- the chain to the other members. internal/client keeps each room's chains, promises positions to
-- disk before it uses them, and learns and hands on views; app_room_e2ee.go decides who is in a room,
-- from signed statements of its members and its owner, and writes the room's state to disk.
-- app_keydir.go decides which signed device list of an account is believed, and publishes our own;
-- what it believes are the keys that messages are sealed to and statements verified with.
-- internal/state holds what is shown: threads, rooms and their messages. internal/oscar paces what is
-- sent, so that the server drops none of it, and edits a mirror of the server-stored buddy list;
-- internal/wire holds the values that messages are made of and marshals them.
--
-- Which file models what.
--   E2ee/Ratchet: internal/e2ee/ratchet.go, Chain and ChainView (Next is `next`, MessageKey is
--     `message_key`, Advance, AdvanceChain, Continues, View). E2ee/ChainCodec: EncodeChain,
--     DecodeChain and their forms for views.
--   E2ee/Stamp: internal/e2ee/stamp.go. E2ee/RoomSign: internal/e2ee/roomsign.go (signing contexts,
--     signed payloads, VerifySigned, attestations). E2ee/Devices: the keys of a device,
--     internal/e2ee/multidevice.go.
--   E2ee/RoomChain: internal/e2ee/roomchain.go (SealRoomChain, OpenRoomChain). E2ee/RoomKey: the
--     envelopes under a shared key of internal/e2ee/room.go. E2ee/Roster: internal/e2ee/roster.go
--     (SignRoster, VerifyRoster, EncodeRoster, DecodeRoster).
--   Client/RoomCrypto: one room of roomCrypto in internal/client/room_e2ee.go (EnsureOutboundChain,
--     LearnChainView, RoomChainState, RestoreChainState); Client/RoomCrypto/Trim: PruneChainViews and
--     ChainBundleFor.
--     Client/RoomCrypto/Send: sealRoomMessage and reserveChainPositions, and mergedRoomEntry and
--     persistRoomChain of app_room_e2ee.go. Client/RoomCrypto/Steps: a room over time as a step
--     relation, one step for each whole operation; Overlap has a send inside another one.
--   App/Members: roomMembers of app_room_e2ee.go, one room of it. App/Members/Authority: applyRoster,
--     rekeyRoom, InviteToRoom, signedRoster, distributeRoster and adoptInviteState; App/Members/Stored:
--     the membership part of mergedRoomEntry and applyRoomEntry. App/Members/History: a room over any
--     run of rosters, removals, invitations sent and accepted, its creation, restarts and records
--     applied again; leaving it for another (ReformRoom) is left out.
--   App/KeyDir: app_keydir.go (verifyManifest, acceptCounter, onSelfManifest), with the pins of
--     internal/trust/trust.go; App/KeyDir/Publish: publishManifest, over any server. Wire/Manifest: the
--     structs of internal/wire/keydir.go with EncodeManifest and DecodeManifest.
--   State/ScreenName, State/Message, State/Conversations, State/Rooms, State/Buddies and
--     State/Pending: internal/state/state.go. State/Pending is split where the lock is given back.
--   Oscar/RateLimit: internal/oscar/ratelimit.go. Oscar/Feedbag, Oscar/Feedbag/Edit
--     and Oscar/Feedbag/Edit/Move:
--     internal/oscar/feedbag_edit.go. Wire/Tlv: internal/wire/tlv.go and the orderings of
--     internal/wire/feedbag.go. Wire/Codec: internal/wire/codec.go; what reflection reads off a Go type
--     and its tags is a shape.
--   Text: what these take from Go's base64, hex, sort, strconv and strings. Tests: concrete runs.
--
-- How the code is read. A method that changes its receiver returns the new value; a map is an
-- association list, a set of names a list; an error is a constructor. A lock is not modelled: a
-- function is one critical section or is split at the point where the lock is given back. A byte is a
-- number below 256, a uint32 wraps at 2 ^ 32, and where an epoch could wrap at 2 ^ 64 the wrap is
-- written out. Random bytes, the clock and the outcome of a write or of a send are arguments. Loops
-- run over their lists, or as often as two indices differ; publishing makes two attempts, as the code
-- does. Text/Uint prints with fuel 7, enough for the digits of a uint32 together with the one its
-- first step gives; the readers of Wire/Codec that run to the end have the length of the text as fuel,
-- or one more, and a reader of an element that takes nothing is an error of its own, where the code
-- would not end.
--
-- Parameters. E2ee/Crypto: HMAC-SHA256, SHA-256, secretbox and ed25519 as functions with their
-- documented laws: sizes, opening what was sealed, verifying what was signed. No secrecy is stated.
-- Unicode case folding and trimming, and the rendering of a time, with no law; the removal that
-- reaches a member takes names that folding leaves as they are.
--
-- What is not modelled: the network, files and their encryption, the user interface, the parsing of
-- struct tags and little-endian order; so far also queries of the key directory and attestation,
-- bundles and catch-up, device transfers and direct messages.
pub mod Prelude
pub mod Text
pub mod E2ee
pub mod Wire
pub mod State
pub mod Oscar
pub mod Client
pub mod App
mod Tests
