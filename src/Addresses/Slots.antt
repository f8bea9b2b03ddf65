-- ===== src/Addresses/Slots.antt =====
-- What `store_address` keeps.
use mathlib.Core.Option.{none-ne-some, some-injective}
use defiads.Prelude.{
  ◌<◌, ◌⊎◌, Option-cases, ℕ, ◌≤◌, ◌≡◌, refl, sym, ap, ◌∙◌, subst, arith, Bool, true, false, not,
  ◌||◌, Option, none, some, List, [], ◌∷◌, inl, inr, max, ==_iff, ltb, Bool-cases, filter, All,
}
use defiads.Iblt.{Sip}
use defiads.Keys.Socket.{SocketAddr}
use defiads.Addresses.{
  AddressRow, Addresses, same_bytes, same_socket, at_slot, find_slot, replace_slot, replacement,
  write, read_seed, slot_of, store_address, old_connection, u64_sub,
}

ltb-false : (a b : ℕ) → b ≤ a → ltb a b ≡ false
ltb-false a b h = ground arith

pub same_bytes_refl : (xs : List ℕ) → same_bytes xs xs ≡ true
same_bytes_refl [] = refl
same_bytes_refl (x ∷ xs) = rw ((==_iff x x).1 refl) (same_bytes_refl xs)

at_slot_refl : (r : AddressRow) → at_slot r.network r.slot r ≡ true
at_slot_refl r = rw (same_bytes_refl r.network) ((==_iff r.slot r.slot).1 refl)

-- No two rows have one slot of one network.
abbrev pub IsKeyed : List AddressRow → Type 0
IsKeyed [] = Unit
IsKeyed (r ∷ rows) = All (λ q. at_slot r.network r.slot q ≡ false) rows × IsKeyed rows

module _ (p : AddressRow → Bool) where
  filter-All :
      (P : AddressRow → Type 0) (rows : List AddressRow)
      → All P rows
      → All P (filter (λ q. not (p q)) rows)
  filter-All P [] h = tt
  filter-All P (r ∷ rows) h = elim (Bool-cases (p r)) [
    | inl gone ↦ rw gone (filter-All P rows h.1)
    | inr kept ↦ rw kept (h.0, filter-All P rows h.1)
  ]

  filter-IsKeyed : (rows : List AddressRow) → IsKeyed rows → IsKeyed (filter (λ q. not (p q)) rows)
  filter-IsKeyed [] h = tt
  filter-IsKeyed (r ∷ rows) h = elim (Bool-cases (p r)) [
    | inl gone ↦ rw gone (filter-IsKeyed rows h.1)
    | inr kept ↦ rw kept (filter-All _ rows h.0, filter-IsKeyed rows h.1)
  ]

  filter_rest : (rows : List AddressRow) → All (λ q. p q ≡ false) (filter (λ q. not (p q)) rows)
  filter_rest [] = tt
  filter_rest (r ∷ rows) = elim (Bool-cases (p r)) [
    | inl gone ↦ rw gone (filter_rest rows)
    | inr kept ↦ rw kept (kept, filter_rest rows)
  ]

write-IsKeyed :
    (reparse : SocketAddr → SocketAddr) (o : Option AddressRow) (rows : List AddressRow)
    → IsKeyed rows
    → IsKeyed (write reparse o rows)
unfolding write replace_slot
write-IsKeyed reparse none rows h = h
write-IsKeyed reparse (some r) rows h =
    (filter_rest (at_slot r.network r.slot) rows, filter-IsKeyed (at_slot r.network r.slot) rows h)

pub read_seed-rows : (random : ℕ × ℕ) (t : Addresses) → (read_seed random t).1.rows ≡ t.rows
unfolding read_seed
read_seed-rows random t = go t.seed
  where
    go :
        (o : Option (ℕ × ℕ))
        → (elim o as (λ _. (ℕ × ℕ) × Addresses) [
          | none ↦ (random, record t { seed = some random })
          | some seed ↦ (seed, t)
        ]).1.rows
          ≡ t.rows
    go none = refl
    go (some seed) = refl

read_seed_known :
    (random seed : ℕ × ℕ) (t : Addresses) → t.seed ≡ some seed → read_seed random t ≡ (seed, t)
unfolding read_seed
read_seed_known random seed t drawn =
    ap (λ o. elim o [ none ↦ (random, record t { seed = some random }) | some s ↦ (s, t) ]) drawn

pub find_slot-at_slot :
    (network : List ℕ) (slot : ℕ) (rows : List AddressRow) (old : AddressRow)
    → find_slot network slot rows ≡ some old
    → at_slot network slot old ≡ true
unfolding find_slot
find_slot-at_slot network slot [] old e = absurd (none-ne-some old e)
find_slot-at_slot network slot (r ∷ rows) old e = elim (Bool-cases (at_slot network slot r)) [
  | inl here ↦ subst (λ q. at_slot network slot q ≡ true) (some-injective r old (rw here at e)) here
  | inr other ↦ find_slot-at_slot network slot rows old (rw other at e)
]

module _ (sip : Sip) (reparse : SocketAddr → SocketAddr) (now : ℕ) (random : ℕ × ℕ)
    (network : List ℕ) (address : SocketAddr) (connected last_seen banned : ℕ) (t : Addresses) where
  abbrev stored : Addresses
  stored = store_address sip reparse now random network address connected last_seen banned t

  -- Storing an address keeps the slots of each network apart, whatever it writes.
  pub store_address-IsKeyed : IsKeyed t.rows → IsKeyed stored.rows
  unfolding store_address
  store_address-IsKeyed h =
      write-IsKeyed reparse _ _ (subst IsKeyed (sym (read_seed-rows random t)) h)

  module _ (seed : ℕ × ℕ) (drawn : t.seed ≡ some seed) (old : AddressRow)
      (taken : find_slot network (slot_of sip seed network address) t.rows ≡ some old) where
    stored-eq : stored ≡ record t {
      rows = write reparse (replacement now address connected last_seen banned old) t.rows;
    }
    unfolding store_address
    stored-eq = rw (read_seed_known random seed t drawn, taken)

    -- A slot that another address holds, which is not banned and to which there was a connection
    -- in the last five days, is left to it: nothing is written.
    pub store_address_busy :
        same_socket old.ip address ≡ false
        → old.banned ≡ 0
        → u64_sub now old_connection ≤ old.connected
        → stored ≡ t
    unfolding replacement write
    store_address_busy other clean recent =
        let live : ltb 0 old.banned || ltb old.connected (u64_sub now old_connection) ≡ false = rw (
          ltb-false 0 old.banned (omega arith),
          ltb-false old.connected (u64_sub now old_connection) recent,
        ) in
        let nothing : replacement now address connected last_seen banned old ≡ none =
          rw (other, live) in
        stored-eq ∙ ap (λ o. record t { rows = write reparse o t.rows }) nothing

    -- Where the slot holds the same address, the times of its last connection, of its last sight and
    -- of its ban do not fall.
    pub store_address_same :
        same_socket old.ip address ≡ true
        → (r : AddressRow) × (find_slot network (slot_of sip seed network address) stored.rows
            ≡ some r)
          × (old.connected ≤ r.connected)
          × (old.last_seen ≤ r.last_seen)
          × (old.banned ≤ r.banned)
    unfolding replacement write replace_slot find_slot
    store_address_same same =
        let merged : AddressRow = record old {
          ip = reparse old.ip;
          connected = max old.connected connected;
          last_seen = max old.last_seen last_seen;
          banned = max old.banned banned;
        } in
        let here : at_slot network (slot_of sip seed network address) merged ≡ true =
          find_slot-at_slot network (slot_of sip seed network address) t.rows old taken in
        let written : stored.rows ≡ replace_slot merged t.rows =
          ap (λ (a : Addresses). a.rows) stored-eq ∙ rw same in
        (
          merged,
          subst (λ rows. find_slot network (slot_of sip seed network address) rows ≡ some merged)
              (sym written) (rw here),
          omega arith,
          omega arith,
          omega arith,
        )

  module _ (seed : ℕ × ℕ) (drawn : t.seed ≡ some seed) where
    abbrev slot : ℕ
    slot = slot_of sip seed network address

    -- What the slot of the address holds.
    pub record Holds (a : SocketAddr) (c l n : ℕ) : Type 0 where
      pub row : AddressRow
      pub found : find_slot network slot stored.rows ≡ some row
      pub is_ip : row.ip ≡ a
      pub is_connected : row.connected ≡ c
      pub is_last_seen : row.last_seen ≡ l
      pub is_banned : row.banned ≡ n

    -- What becomes of the slot, by what it held: nothing, the same address, another one that may be
    -- replaced, since it is banned or its last connection is old, or another one that may not.
    abbrev pub IsStored : Option AddressRow → Type 0
    IsStored none = Holds (reparse address) connected last_seen banned
    IsStored (some old) =
        ((same_socket old.ip address ≡ true)
          × Holds (reparse old.ip) (max old.connected connected) (max old.last_seen last_seen)
              (max old.banned banned))
        ⊎ (((same_socket old.ip address ≡ false)
              × ((0 < old.banned) ⊎ (old.connected < u64_sub now old_connection))
              × Holds (reparse address) connected last_seen banned)
            ⊎ ((same_socket old.ip address ≡ false)
                × (old.banned ≡ 0)
                × (u64_sub now old_connection ≤ old.connected)
                × (stored ≡ t)))

    written :
        (r : AddressRow)
        → at_slot network slot r ≡ true
        → stored.rows ≡ write reparse (some r) t.rows
        → Holds (reparse r.ip) r.connected r.last_seen r.banned
    unfolding write replace_slot find_slot
    written r here p = record {
      row = record r { ip = reparse r.ip };
      found = ap (find_slot network slot) p ∙ rw here refl;
      is_ip = refl;
      is_connected = refl;
      is_last_seen = refl;
      is_banned = refl;
    }

    held : (old : AddressRow) → find_slot network slot t.rows ≡ some old → IsStored (some old)
    unfolding replacement
    held old taken =
        let here = find_slot-at_slot network slot t.rows old taken in
        let rows_of : stored.rows
            ≡ write reparse (replacement now address connected last_seen banned old) t.rows =
          ap (λ (a : Addresses). a.rows) (stored-eq seed drawn old taken) in
        elim (Bool-cases (same_socket old.ip address)) [
          | inl same ↦ inl (
            same,
            written
                (record old {
                  connected = max old.connected connected;
                  last_seen = max old.last_seen last_seen;
                  banned = max old.banned banned;
                })
                here (rows_of ∙ rw same),
          )
          | inr other ↦ elim (Bool-cases (ltb 0 old.banned)) [
            | inl bad ↦ inr (
                inl (
                  other,
                  inl (ground arith),
                  written
                      (record old {
                        ip = address;
                        connected = connected;
                        last_seen = last_seen;
                        banned = banned;
                      })
                      here (rows_of ∙ rw (other, bad)),
                ))
            | inr clean ↦ elim (Bool-cases (ltb old.connected (u64_sub now old_connection))) [
              | inl stale ↦ inr (
                  inl (
                    other,
                    inr (ground arith),
                    written
                        (record old {
                          ip = address;
                          connected = connected;
                          last_seen = last_seen;
                          banned = banned;
                        })
                        here (rows_of ∙ rw (other, clean, stale)),
                  ))
              | inr recent ↦
                  let unbanned : old.banned ≡ 0 = ground arith in
                  let young : u64_sub now old_connection ≤ old.connected = ground arith in
                  inr (
                    inr (
                      other,
                      unbanned,
                      young,
                      store_address_busy seed drawn old taken other unbanned young,
                    ))
            ]
          ]
        ]

    abbrev fresh : ℕ × ℕ → AddressRow
    fresh k = record {
      network = network;
      slot = slot_of sip k network address;
      ip = address;
      connected = connected;
      last_seen = last_seen;
      banned = banned;
    }

    abbrev stored_rows : (ℕ × ℕ) × Addresses → List AddressRow
    stored_rows r =
        let chosen : Option AddressRow =
          elim (find_slot network (slot_of sip (r.0) network address) (r.1.rows)) [
            | none ↦ some (fresh (r.0))
            | some old ↦ replacement now address connected last_seen banned old
          ] in
        write reparse chosen (r.1.rows)

    -- With a seed drawn and one row for each slot of a network: an address goes into its slot if that
    -- is free. If it is there already, the times of its last connection, of its last sight and of its
    -- ban are the later ones. Another address in the slot is replaced if it is banned or its last
    -- connection is older than five days, and is left, with all the table, if not. There is still one
    -- row for each slot.
    pub store_address-IsStored :
        IsKeyed t.rows → IsStored (find_slot network slot t.rows) × IsKeyed stored.rows
    unfolding store_address
    store_address-IsStored keyed = (
      elim (Option-cases (find_slot network slot t.rows)) [
        | inr (old, taken) ↦ subst IsStored (sym taken) (held old taken)
        | inl free ↦
            let rows_of : stored.rows ≡ write reparse (some (fresh seed)) t.rows =
              ap stored_rows (read_seed_known random seed t drawn) ∙ rw free refl in
            subst IsStored (sym free) (written (fresh seed) (at_slot_refl (fresh seed)) rows_of)
      ],
      store_address-IsKeyed keyed,
    )
