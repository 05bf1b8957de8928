-- ===== src/Lib.antt =====
-- HIT_ENTER: a group's state, folded from signed events on every member's machine.
--
-- The program has no server. A group is a set of signed nostr events: four state events signed by
-- the group's key (a snapshot), and actions signed by people. Each node folds the events it holds
-- into the group's state, and asks the state what it may store, show and pass on. This library
-- models that core, function by function, and proves what it promises.
--
-- The files and the code they model (paths from the repository's root):
--   Perm, Perm/Names       crates/hit-group/src/perm.rs: permission words and their names
--   Event, Event/*         crates/hit-event/src/group.rs: kinds, tags, actions, edits, state events
--                          and attachments, as they are read; Event/Builders and Event/Snapshots
--                          are what makes them; Event/Replaces is replace.rs beside
--                          it (with is_revoked of binding.rs), Event/Zaps is the checks of zap.rs
--   Event/Bindings         crates/hit-event/src/binding.rs: the checks of a binding; Bindings/Book is
--                          BindingBook, Bindings/Signing what is signed
--   Group                  crates/hit-group/src/state.rs: GroupState, Silence, Invite, and the
--                          questions of permission and rank; Refusal is that of lib.rs beside it
--   Group/Execute          GroupState::apply statement by statement, each change of the state in its place
--   Group/Apply            GroupState::apply, one function per action: its tests, then its changes at once
--   Group/Edit             GroupState::edit, one function per edit
--   Group/Fold             GroupState::fold and apply_second
--   Group/Judge            the judge_ functions; Group/Read the reading rules and to_snapshot
--   Groups                 crates/hit-group/src/lib.rs: Groups, judge, may_read, gossip_group
--   Fee                    crates/hit-zap/src/fee.rs
--   Voice/Jitter           crates/hit-voice/src/jitter.rs; Voice/Wire is Packet of wire.rs beside it
--   Proto/Frame, Proto/Io  crates/hit-proto/src/frame.rs and io.rs
--   Proto/Links            invite.rs and contact.rs beside them
-- Proofs stand below the module they are about: Perm/Bits, Event/Replaces/Order, Group/Soundness (the
-- invariant of a group), Group/Powers (the bits of a person's permissions), Group/Apply/Sound,
-- Group/Apply/Grants, Group/Apply/Ranks, Group/Apply/Refused, Group/Execute/Whole and Refused, Group/Edit/Sound, Group/Edit/Grants,
-- Group/Fold/Loaded, Group/Fold/Sound, Group/Fold/Rounds, Group/Fold/Owner, Group/Fold/Ignored,
-- Group/Bans and the two below it, Group/Reach (the actions as steps), Group/Posting, Group/Speech,
-- Group/Channels, Group/Order, Group/Grants, Group/Read/Views, Groups/Guards and Groups/Gossip;
-- Event/Bindings/Sound (what passes the checks), Event/Bindings/History and Arrival (what a book holds
-- after many events), Event/Bindings/Authentic, Event/Bindings/Signing/Verifies; Voice/Jitter/Held,
-- Valid, Turns, Runs and Unwrap; Proto/Io/Refines, Proto/Io/Trips and the three below Proto/Links; and,
-- of what is built and read back, Event/Builders/Trips, Event/Actions/Built, Event/Attachments/Sent,
-- and Event/States/Rows, People and Signed, and Group/Fold/Gathers, Restores and Renewed (a snapshot folded again).
-- Base holds what the parts share: tests, keys, maps and sets, results, texts, integers and the
-- bits of words. Tests runs the definitions on one small club,
-- two devices, a stream, a call and a snapshot.
--
-- How the parts meet: Groups.judge asks the state of the group that an event names, by the functions
-- of Group/Judge; Group/Fold makes that state, from the state events that Event/States reads and the
-- actions that Event/Actions reads, by Group/Execute, which calls Group/Edit
-- for a 9002 and is related to Group/Apply by Group/Execute/Whole.
--
-- How the code is written here:
--   * `&mut self` is the state passed in and out. An action run statement by statement (Group/Execute) gives
--     back the state at the statement that refused it, with the error; where nothing of the state is
--     changed before the last test, the functions of Group/Apply and Group/Edit give the new state or
--     the error.
--   * u64, u32 and u16 are natural numbers, since the code adds to times and numbers only; parsing
--     a number has the bound of its type. The sum of a time and a wait or an allowance is not cut at the
--     end of a u64, where alone it would differ from the nostr crate's. Permission words have 64 bits where a complement is
--     taken. i64 positions are integers, and Rank::FLOOR is the least i64.
--   * BTreeMap and BTreeSet are lists without repetition. Those with texts as keys stand in the
--     order of the texts' code points, and those with keys or ids as keys in the order of numbers.
--   * A public key or an event's id is its bytes read as a number. Hexadecimal and JSON reading,
--     signatures, identifiers and public keys of tags are the nostr crate's: the record Nostr
--     (Event) holds them as parameters. What a theorem supposes of them (that a key or an event's id
--     is read from its own text, that what is signed verifies) is among its hypotheses. The amount of
--     an invoice (Invoice::decode of zap.rs) is a parameter of the same record.
--   * Iroh's devices, what hex and nostr read of a binding, and a stream's reads and writes are
--     parameters: the records Devices and Keyring (Event/Bindings), Reader and Writer (Proto/Io),
--     Spelling (Proto/Links). Their laws are fields of Reader and of IsHonest, or hypotheses of the
--     theorems.
--   * The numbers of the jitter buffer are those of a u32: their sums and differences wrap, as in a
--     release build. A packet takes the newest number at most 32768 further, so none wraps before some
--     131000 packets that all skip as far as they may; the theorems on runs and ticks have the bound.
--   * The loop of fill runs on fuel: the number of bytes wanted. Each turn reads a byte at least or
--     ends, so the fuel is enough.
--   * The loop of apply_second runs on fuel: the number of actions pending. Each round but the
--     last applies one action at least, so the fuel is enough.
--
-- Not modelled: the storage of keys and the making of random codes, encryption and direct messages, the
-- store, the network but for its frames, a call but for its packets, wallets, the
-- anchor and the user interfaces.
pub mod Base
pub mod Perm
pub mod Event
pub mod Group
pub mod Groups
pub mod Fee
pub mod Voice
pub mod Proto
mod Tests
