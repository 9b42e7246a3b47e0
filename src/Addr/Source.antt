-- ===== src/Addr/Source.antt =====
-- Updates of the source addresses: what each report does.
use neat.Base.{
  ℕ, ◌+◌, ◌%◌, ◌≡◌, refl, sym, ap, ◌∙◌, Bool, true, false, List, [], ◌∷◌, none, some, arith,
  Bool-cases, Option-cases, inl, inr,
}
use neat.Addr.{
  SockAddr, inet, inet6, other, bytes_eq, NeatAddr, new_addr, del_addr, Ctx, ok, same_addr, matches,
  find, remove, is_inet6, supported, entry, update_found, update_src_list,
}
use neat.Addr.Keys.{
  IsValid, Absent-find, find-Absent, Unique-remove, removed-Absent, length-remove, Unique-renew,
  length-renew,
}

update_found-IsValid :
    (nc : Ctx) (e : NeatAddr) (a : SockAddr) (i : ℕ) (newaddr : Bool) (p v : ℕ)
    → find nc.src_addrs a i ≡ some e
    → IsValid nc
    → IsValid (update_found nc e a i newaddr p v)
unfolding update_found
update_found-IsValid nc e a i false p v h w = record {
  counted = omega (arith, w.counted, length-remove a i nc.src_addrs e h);
  unique = Unique-remove a i nc.src_addrs w.unique;
}
update_found-IsValid nc e a i true p v h w = elim (Bool-cases (is_inet6 e.addr)) [
  | inl six ↦
      rw (six, update_found)
        (record {
          counted = w.counted ∙ sym (ap (λ n. n % 256) (length-renew a i p v nc.src_addrs));
          unique = Unique-renew a i p v nc.src_addrs w.unique;
        })
  | inr four ↦ rw (four, update_found) w
]

-- Every report, on every branch, keeps in a valid context the counter, a uint8_t, equal to the
-- length of the list modulo 256 and the keys (family, interface and address) of its entries
-- distinct.
pub update_src_list-IsValid :
    (nc : Ctx) (a : SockAddr) (i : ℕ) (newaddr : Bool) (n p v : ℕ) (allocates : Bool)
    → IsValid nc
    → IsValid (update_src_list nc a i newaddr n p v allocates).1
unfolding update_src_list
update_src_list-IsValid nc a i newaddr n p v allocates w = elim (Bool-cases (supported a)) [
  | inr bad ↦ rw (bad, update_src_list) w
  | inl good ↦ elim (Option-cases (find nc.src_addrs a i)) [
    | inr (e, hit) ↦
        rw (good, hit, update_src_list) (update_found-IsValid nc e a i newaddr p v hit w)
    | inl miss ↦ elim (Bool-cases allocates) [
      | inr full ↦ rw (good, miss, full, update_src_list) w
      | inl fits ↦
          rw (good, miss, fits, update_src_list)
            (record {
              counted = omega (arith, w.counted);
              unique = (find-Absent a i nc.src_addrs miss, w.unique);
            })
    ]
  ]
]

find-removed :
    (nc : Ctx) (a : SockAddr) (i : ℕ) → IsValid nc → find (remove nc.src_addrs a i) a i ≡ none
find-removed nc a i w =
    Absent-find a i (remove nc.src_addrs a i) (removed-Absent a i nc.src_addrs w.unique)

-- In a valid context, the report that a known address is gone takes it off the list for good,
-- lowers the count by one and announces the entry that went.
pub update_src_list-deleted :
    (nc : Ctx) (e : NeatAddr) (a : SockAddr) (i n p v : ℕ) (allocates : Bool)
    → IsValid nc
    → supported a ≡ true
    → find nc.src_addrs a i ≡ some e
    → (nc' : Ctx) × (update_src_list nc a i false n p v allocates ≡ (ok, nc'))
      × (find nc'.src_addrs a i ≡ none)
      × (nc'.src_addr_cnt ≡ (nc.src_addr_cnt + 255) % 256)
      × (nc'.events ≡ del_addr e ∷ nc.events)
unfolding update_src_list update_found
update_src_list-deleted nc e a i n p v allocates w good hit = (
  update_found nc e a i false p v,
  rw (good, hit, update_src_list) refl,
  find-removed nc a i w,
  refl,
  refl,
)

bytes_eq_refl : (x : List ℕ) → bytes_eq x x ≡ true
unfolding bytes_eq
bytes_eq_refl [] = refl
bytes_eq_refl (a ∷ x) = ground (arith, bytes_eq_refl x)

same_addr_refl : (a : SockAddr) → supported a ≡ true → same_addr a a ≡ true
unfolding same_addr
same_addr_refl (inet p a) h = ground arith
same_addr_refl (inet6 p f x s) h = bytes_eq_refl x
same_addr_refl (other f) h = cc

entry-matches :
    (a : SockAddr) (i n p v : ℕ) → supported a ≡ true → matches (entry a i n p v) a i ≡ true
unfolding matches
entry-matches a i n p v h = ground (arith, same_addr_refl a h)

-- The report that an address is gone which is not on the list puts that address on the list, if
-- calloc succeeds, counts it and announces it as new.
pub update_src_list-unknown_deleted :
    (nc : Ctx) (a : SockAddr) (i n p v : ℕ)
    → supported a ≡ true
    → find nc.src_addrs a i ≡ none
    → (nc' : Ctx) × (update_src_list nc a i false n p v true ≡ (ok, nc'))
      × (find nc'.src_addrs a i ≡ some (entry a i n p v))
      × (nc'.src_addr_cnt ≡ (nc.src_addr_cnt + 1) % 256)
      × (nc'.events ≡ new_addr (entry a i n p v) ∷ nc.events)
unfolding update_src_list find
update_src_list-unknown_deleted nc a i n p v good miss = (
  record nc {
    src_addrs = entry a i n p v ∷ nc.src_addrs;
    src_addr_cnt = (nc.src_addr_cnt + 1) % 256;
    events = new_addr (entry a i n p v) ∷ nc.events;
  },
  rw (good, miss, update_src_list) refl,
  rw (entry-matches a i n p v good, find) refl,
  refl,
  refl,
)
