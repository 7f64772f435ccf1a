-- ===== src/Api/Relay/Delivery.antt =====
-- What the relay can lose, and that it delivers in order.
use ship_zen_gcp.Prelude.{
  ℕ, zero, suc, ◌+◌, ◌*◌, ◌-◌, ◌≤◌, ◌≡◌, refl, sym, ap, ◌∙◌, Bool, true, false, List, [], ◌∷◌, ◌++◌,
  count, length, length-append, drop, length-drop, all, count-append, arith,
}
use mathlib.Core.List.{append_assoc, append-nil}
use ship_zen_gcp.Api.Store.{Payload, Store}
use ship_zen_gcp.Api.Relay.{
  picked, left, Round, moved, added, failed, trimmed, xadd, add_all, least, relay_outbox_once,
  rounds,
}

count-picked-left :
    (q : Payload → Bool) (n : ℕ) (locks : List Bool) (rows : List Payload)
    → count q (picked n locks rows) + count q (left n locks rows) ≡ count q rows
unfolding picked left
count-picked-left q zero locks rows = omega arith
count-picked-left q (suc n) locks [] = refl
count-picked-left q (suc n) [] (r ∷ rows) = ground (arith, count-picked-left q n [] rows)
count-picked-left q (suc n) (true ∷ locks) (r ∷ rows) =
    ground (arith, count-picked-left q (suc n) locks rows)
count-picked-left q (suc n) (false ∷ locks) (r ∷ rows) =
    ground (arith, count-picked-left q n locks rows)

length-picked : (n : ℕ) (locks : List Bool) (rows : List Payload) → length (picked n locks rows) ≤ n
unfolding picked
length-picked zero locks rows = omega arith
length-picked (suc n) locks [] = omega arith
length-picked (suc n) [] (r ∷ rows) = omega (arith, length-picked n [] rows)
length-picked (suc n) (true ∷ locks) (r ∷ rows) = length-picked (suc n) locks rows
length-picked (suc n) (false ∷ locks) (r ∷ rows) = omega (arith, length-picked n locks rows)

least_le : (c n : ℕ) → least c n ≤ n
least_le c n = ground arith

count-drop :
    (q : Payload → Bool) (n : ℕ) (xs : List Payload)
    → (count q (drop n xs) ≤ count q xs) × (count q xs ≤ count q (drop n xs) + n)
count-drop q zero xs = (omega arith, omega arith)
count-drop q (suc n) [] = (omega arith, omega arith)
count-drop q (suc n) (x ∷ xs) =
    let rest = count-drop q n xs in (ground (arith, rest.0), ground (arith, rest.1))

-- No more of the entries are dropped than there are above 10,000.
Kept : (Payload → Bool) → List Payload → List Payload → List Payload → Type 0
Kept q entries rows after =
    (count q after ≤ count q entries + count q rows)
    × (count q entries + count q rows ≤ count q after + ((length entries + length rows) - 10000))

xadd_step :
    (q : Payload → Bool) (c : ℕ) (entries : List Payload) (r : Payload) (rows after : List Payload)
    → Kept q (xadd c entries r) rows after
    → Kept q entries (r ∷ rows) after
unfolding Kept
xadd_step q c entries r rows after h =
    let grown = entries ++ r ∷ [] in
    let cut = least c (length grown - 10000) in
    let dropped = count-drop q cut grown in
    let whole = count-append q entries (r ∷ []) in
    let size = length-drop cut grown in
    let longer = length-append entries (r ∷ []) in
    let most = least_le c (length grown - 10000) in
    (
      ground (arith, h.0, dropped.0, whole),
      ground (arith, h.1, dropped.1, whole, size, longer, most),
    )

add_all-Kept :
    (q : Payload → Bool) (cuts : List ℕ) (entries rows : List Payload)
    → Kept q entries rows (add_all cuts entries rows)
unfolding Kept
add_all-Kept q cuts entries [] = (omega arith, omega arith)
add_all-Kept q [] entries (r ∷ rows) =
    xadd_step q 0 entries r rows _ (add_all-Kept q [] (xadd 0 entries r) rows)
add_all-Kept q (c ∷ cuts) entries (r ∷ rows) =
    xadd_step q c entries r rows _ (add_all-Kept q cuts (xadd c entries r) rows)

-- Messages that are nowhere any more, or too often.
abbrev pub total : (Payload → Bool) → Store → ℕ
total q s = count q s.stream + count q s.outbox

-- However far a round gets, whichever rows another replica has locked and however much Redis cuts, the
-- round loses no message while the stream has at most 9,990, and otherwise no more than by which ten
-- more make the stream longer than the 10,000 that XADD keeps; this holds for each kind of message. And a
-- round that is committed makes none twice.
pub total-relay_outbox_once :
    (q : Payload → Bool) (r : Round) (locks : List Bool) (cuts : List ℕ) (s : Store)
    → (total q s ≤ total q (relay_outbox_once r locks cuts s) + ((length s.stream + 10) - 10000))
      × (total q (relay_outbox_once moved locks cuts s) ≤ total q s)
unfolding relay_outbox_once Kept
total-relay_outbox_once q r locks cuts s = (at_least r, omega (arith, kept.0, split))
  where
    kept :
        Kept q s.stream
          (picked 10 locks s.outbox)
          (add_all cuts s.stream (picked 10 locks s.outbox))
    kept = add_all-Kept q cuts s.stream (picked 10 locks s.outbox)

    split : count q (picked 10 locks s.outbox) + count q (left 10 locks s.outbox) ≡ count q s.outbox
    split = count-picked-left q 10 locks s.outbox

    at_least :
        (r : Round)
        → total q s ≤ total q (relay_outbox_once r locks cuts s) + ((length s.stream + 10) - 10000)
    at_least moved = omega (arith, kept.1, split, length-picked 10 locks s.outbox)
    at_least added = omega (arith, kept.1, length-picked 10 locks s.outbox)
    at_least failed = omega arith

in_order : (n : ℕ) (rows : List Payload) → picked n [] rows ++ left n [] rows ≡ rows
unfolding picked left
in_order zero rows = refl
in_order (suc n) [] = refl
in_order (suc n) (r ∷ rows) = ap (λ t. r ∷ t) (in_order n rows)

length-left : (n : ℕ) (rows : List Payload) → length (left n [] rows) ≡ length rows - n
unfolding left
length-left zero rows = omega arith
length-left (suc n) [] = omega arith
length-left (suc n) (r ∷ rows) = omega (arith, length-left n rows)

empty_list : (rows : List Payload) → length rows ≤ 0 → rows ≡ []
empty_list [] h = refl
empty_list (r ∷ rows) h = ground arith

trimmed_short :
    (c : ℕ) (entries : List Payload) → length entries ≤ 10000 → trimmed c entries ≡ entries
trimmed_short c entries h = ap (λ n. drop n entries) (none_cut _ (least_le c _))
  where
    none_cut : (n : ℕ) → n ≤ length entries - 10000 → n ≡ 0
    none_cut n k = omega (arith, k, h)

xadd_short :
    (c : ℕ) (entries : List Payload) (r : Payload) (rows : List Payload)
    → length entries + length (r ∷ rows) ≤ 10000
    → (xadd c entries r ≡ entries ++ r ∷ []) × (length (xadd c entries r) + length rows ≤ 10000)
xadd_short c entries r rows h =
    let longer = length-append entries (r ∷ []) in
    let same = trimmed_short c (entries ++ r ∷ []) (omega (arith, h, longer)) in
    (same, rw same (omega (arith, h, longer)))

add_all-append :
    (cuts : List ℕ) (entries rows : List Payload)
    → length entries + length rows ≤ 10000
    → add_all cuts entries rows ≡ entries ++ rows
add_all-append cuts entries [] h = sym (append-nil entries)
add_all-append [] entries (r ∷ rows) h =
    let next = xadd_short 0 entries r rows h in
    add_all-append [] (xadd 0 entries r) rows next.1
    ∙ ap (λ t. t ++ rows) next.0
    ∙ append_assoc entries (r ∷ []) rows
add_all-append (c ∷ cuts) entries (r ∷ rows) h =
    let next = xadd_short c entries r rows h in
    add_all-append cuts (xadd c entries r) rows next.1
    ∙ ap (λ t. t ++ rows) next.0
    ∙ append_assoc entries (r ∷ []) rows

-- The rounds that are committed.
abbrev pub is_moved : Round → Bool
is_moved moved = true
is_moved r = false

-- The round is committed, or did not come to the pipeline.
abbrev pub is_clean : Round → Bool
is_clean added = false
is_clean r = true

-- If the stream and the outbox have at most 10,000 entries together and a single replica relays them, in
-- rounds of which each fails before its pipeline or is committed and of which enough are committed, ten
-- messages each, the outbox gets empty: every message is in the stream, once, after what was there, in
-- the order in which the deployments were queued, however much Redis cuts.
pub rounds-deliver :
    (rs : List (Round × List ℕ)) (s : Store)
    → length s.stream + length s.outbox ≤ 10000
    → all (λ r. is_clean r.0) rs ≡ true
    → length s.outbox ≤ count (λ r. is_moved r.0) rs * 10
    → ((rounds rs s).outbox ≡ []) × ((rounds rs s).stream ≡ s.stream ++ s.outbox)
unfolding rounds relay_outbox_once
rounds-deliver [] s room clean h =
    let empty = empty_list s.outbox (omega (arith, h)) in
    (empty, sym (append-nil s.stream) ∙ ap (λ t. s.stream ++ t) (sym empty))
rounds-deliver ((added, cuts) ∷ rs) s room clean h = ground (arith, clean)
rounds-deliver ((failed, cuts) ∷ rs) s room clean h =
    rounds-deliver rs s room clean (omega (arith, h))
rounds-deliver ((moved, cuts) ∷ rs) s room clean h =
    let next = relay_outbox_once moved [] cuts s in
    let ten = picked 10 [] s.outbox in
    let whole = in_order 10 s.outbox in
    let size = ap length whole in
    let sizes = length-append ten (left 10 [] s.outbox) in
    let add = add_all-append cuts s.stream ten (omega (arith, room, size, sizes)) in
    let longer = ap length add in
    let rest =
      rounds-deliver rs next (omega (arith, room, longer, length-append s.stream ten, size, sizes))
        clean (omega (arith, h, length-left 10 s.outbox)) in
    (
      rest.0,
      rest.1
          ∙ ap (λ t. t ++ left 10 [] s.outbox) add
          ∙ append_assoc s.stream ten (left 10 [] s.outbox)
          ∙ ap (λ t. s.stream ++ t) whole,
    )
