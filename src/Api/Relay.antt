-- ===== src/Api/Relay.antt =====
-- api/background.py: `_relay_outbox_once`, one round of the relay from the outbox to the stream.
pub mod Delivery
use ship_zen_gcp.Prelude.{
  ℕ, zero, suc, ◌-◌, Bool, true, false, List, [], ◌∷◌, ◌++◌, length, drop, leb, if◌then◌else◌,
}
use ship_zen_gcp.Api.Store.{Payload, Store}

-- `ORDER BY id ASC FOR UPDATE SKIP LOCKED LIMIT n`: the rows that are taken, and those that stay. The
-- first list says which rows another replica has locked; rows past its end are free.
unfoldable pub picked : ℕ → List Bool → List Payload → List Payload
picked zero locks rows = []
picked (suc n) locks [] = []
picked (suc n) [] (r ∷ rows) = r ∷ picked n [] rows
picked (suc n) (true ∷ locks) (r ∷ rows) = picked (suc n) locks rows
picked (suc n) (false ∷ locks) (r ∷ rows) = r ∷ picked n locks rows

unfoldable pub left : ℕ → List Bool → List Payload → List Payload
left zero locks rows = rows
left (suc n) locks [] = []
left (suc n) [] (r ∷ rows) = left n [] rows
left (suc n) (true ∷ locks) (r ∷ rows) = r ∷ left (suc n) locks rows
left (suc n) (false ∷ locks) (r ∷ rows) = left n locks rows

-- The least of two.
abbrev pub least : ℕ → ℕ → ℕ
least c n = if leb c n then c else n

-- `xadd(..., maxlen=10000)`: about this many entries stay. Redis drops as many of the oldest as suits it,
-- here `cut` if it may, but keeps 10,000.
abbrev pub trimmed : ℕ → List Payload → List Payload
trimmed cut entries = drop (least cut (length entries - 10000)) entries

abbrev pub xadd : ℕ → List Payload → Payload → List Payload
xadd cut entries r = trimmed cut (entries ++ r ∷ [])

-- The pipeline. The cuts are those of its XADDs; past the end of the list nothing is dropped.
abbrev pub add_all : List ℕ → List Payload → List Payload → List Payload
add_all cuts entries [] = entries
add_all [] entries (r ∷ rows) = add_all [] (xadd 0 entries r) rows
add_all (c ∷ cuts) entries (r ∷ rows) = add_all cuts (xadd c entries r) rows

-- How far a round gets: the pipeline is executed or not, and then the DELETE is committed or not.
pub data Round : Type 0 where
  moved added failed : Round

unfoldable pub relay_outbox_once : Round → List Bool → List ℕ → Store → Store
unfolding picked left
relay_outbox_once moved locks cuts s = record s {
  stream = add_all cuts s.stream (picked 10 locks s.outbox);
  outbox = left 10 locks s.outbox;
}
relay_outbox_once added locks cuts s = record s {
  stream = add_all cuts s.stream (picked 10 locks s.outbox);
}
relay_outbox_once failed locks cuts s = s

-- `outbox_relay`: rounds, one after the other, here of a single replica, so that no row is locked.
unfoldable pub rounds : List (Round × List ℕ) → Store → Store
unfolding relay_outbox_once
rounds [] s = s
rounds ((r, cuts) ∷ rs) s = rounds rs (relay_outbox_once r [] cuts s)
