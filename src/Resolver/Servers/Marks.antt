-- ===== src/Resolver/Servers/Marks.antt =====
-- Which name servers stay when resolv.conf has changed, and as what.
use neat.Base.{
  String, same_string, same_string→≡, same_string_refl, ◌≡◌, refl, ap, sym, subst, ◌∙◌, Bool, true,
  false, ◌||◌, Bool-cases, inl, inr, List, [], ◌∷◌, Option, Option-cases, none, some, arith,
  if◌then◌else◌,
}
use neat.Resolver.Duplicates.{Pton}
use neat.Resolver.Servers.{
  Address, Mark, static, active, delete, Server, same_address, doomed, reset_mark, is_delete,
  delete_servers, mark_active, check_addr, line_address, read_lines, resolv_conf_updated,
}

-- The mark of the first server with an address.
abbrev pub mark_of : Address → List Server → Option Mark
mark_of address [] = none
mark_of address (server ∷ servers) =
    if same_address server.server_addr address then some server.mark else mark_of address servers

-- No two servers have the same address.
abbrev pub Distinct : List Server → Type 0
Distinct [] = Unit
Distinct (server ∷ servers) = (mark_of server.server_addr servers ≡ none) × Distinct servers

-- A line of the file names the address.
abbrev pub is_named : Pton → Address → List String → Bool
is_named pton address [] = false
is_named pton address (line ∷ lines) =
    elim (line_address pton line) [ none ↦ false | some named ↦ same_address named address ]
    || is_named pton address lines

abbrev pub doomed_mark : Option Mark → Option Mark
doomed_mark none = none
doomed_mark (some mark) = some (doomed mark)

abbrev pub kept_mark : Option Mark → Option Mark
kept_mark none = none
kept_mark (some mark) = if is_delete mark then none else some mark

-- What becomes of the mark of an address that the file does not name.
abbrev pub unnamed_mark : Option Mark → Option Mark
unnamed_mark (some static) = some static
unnamed_mark mark = none

same_address_refl : (a : Address) → same_address a a ≡ true
same_address_refl a = ground (arith, same_string_refl a.bytes)

same_address→≡ : (a b : Address) → same_address a b ≡ true → a ≡ b
same_address→≡ a b e =
    let f : a.family ≡ b.family = ground (arith, e) in
    let s : same_string a.bytes b.bytes ≡ true = ground (arith, e) in
    let t = same_string→≡ a.bytes b.bytes s in λ k. record { family = f k; bytes = t k }

mark_of-reset_mark :
    (address : Address) (servers : List Server)
    → mark_of address (reset_mark servers) ≡ doomed_mark (mark_of address servers)
unfolding reset_mark
mark_of-reset_mark address [] = refl
mark_of-reset_mark address (server ∷ servers) =
    elim (Bool-cases (same_address server.server_addr address)) [
      | inl s ↦ simp s refl
      | inr s ↦ simp s (mark_of-reset_mark address servers)
    ]

Distinct-reset_mark : (servers : List Server) → Distinct servers → Distinct (reset_mark servers)
unfolding reset_mark
Distinct-reset_mark [] d = d
Distinct-reset_mark (server ∷ servers) (e, d) = (
  mark_of-reset_mark server.server_addr servers ∙ ap doomed_mark e,
  Distinct-reset_mark servers d,
)

-- Two addresses that both agree with a third.
same_as_both : (a b c : Address) → same_address a b ≡ true → same_address a c ≡ same_address b c
same_as_both a b c e = ap (λ x. same_address x c) (same_address→≡ a b e)

same_address_sym : (a b : Address) → same_address a b ≡ false → same_address b a ≡ false
same_address_sym a b e = elim (Bool-cases (same_address b a)) [
  | inl s ↦
      let t : same_address a b ≡ true =
        ap (λ x. same_address x b) (sym (same_address→≡ b a s)) ∙ same_address_refl b in
      absurd (grind (arith, t, e))
  | inr s ↦ s
]

abbrev marked : Bool → Option Mark → Option Mark
marked named mark = if named then some active else mark

-- What the loop has done to the mark of an address.
abbrev Marked : Address → List Server → Address → Option (List Server) → Type 0
Marked address servers dst_addr none = mark_of dst_addr servers ≡ none
Marked address servers dst_addr (some after) =
    mark_of address after ≡ marked (same_address dst_addr address) (mark_of address servers)

-- The servers in front of the address have other ones.
passed :
    (address : Address) (server : Server) (servers : List Server) (dst_addr : Address)
    (rest : List Server)
    → same_address server.server_addr dst_addr ≡ false
    → Marked address servers dst_addr (some rest)
    → Marked address (server ∷ servers) dst_addr (some (server ∷ rest))
passed address server servers dst_addr rest e m =
    elim (Bool-cases (same_address server.server_addr address)) [
      | inl s ↦
          let o : same_address dst_addr address ≡ false =
            ap (same_address dst_addr) (sym (same_address→≡ server.server_addr address s))
            ∙ same_address_sym server.server_addr dst_addr e in
          simp (s, o) refl
      | inr s ↦ simp s m
    ]

mark_active-Marked :
    (address : Address) (servers : List Server) (dst_addr : Address)
    → Marked address servers dst_addr (mark_active servers dst_addr)
unfolding mark_active
mark_active-Marked address [] dst_addr = refl
mark_active-Marked address (server ∷ servers) dst_addr =
    elim (Bool-cases (same_address server.server_addr dst_addr)) [
      | inl s ↦
          let o = same_as_both server.server_addr dst_addr address s in
          elim (Bool-cases (same_address dst_addr address)) [
            | inl t ↦ simp (s, o, t) refl
            | inr t ↦ simp (s, o, t) refl
          ]
      | inr s ↦
          let m = mark_active-Marked address servers dst_addr in
          elim (Option-cases (mark_active servers dst_addr)) [
            | inl n ↦ simp (s, n) (subst (Marked address servers dst_addr) n m)
            | inr (rest, n) ↦
                simp (s, n)
                  (passed address server servers dst_addr rest s
                    (subst (Marked address servers dst_addr) n m))
          ]
    ]

mark_of-check_addr :
    (address : Address) (servers : List Server) (dst_addr : Address)
    → mark_of address (check_addr true servers dst_addr)
      ≡ marked (same_address dst_addr address) (mark_of address servers)
unfolding check_addr
mark_of-check_addr address servers dst_addr =
    let m = mark_active-Marked address servers dst_addr in
    elim (Option-cases (mark_active servers dst_addr)) [
      | inl n ↦ simp (n, check_addr) refl
      | inr (rest, n) ↦ simp (n, check_addr) (subst (Marked address servers dst_addr) n m)
    ]

-- Whether the loop has found the address or not, what stays is distinct.
abbrev DistinctIn : Option (List Server) → Type 0
DistinctIn none = Unit
DistinctIn (some servers) = Distinct servers

mark_active-Distinct :
    (servers : List Server) (dst_addr : Address)
    → Distinct servers
    → DistinctIn (mark_active servers dst_addr)
unfolding mark_active
mark_active-Distinct [] dst_addr d = tt
mark_active-Distinct (server ∷ servers) dst_addr (e, d) =
    elim (Bool-cases (same_address server.server_addr dst_addr)) [
      | inl s ↦ simp s (e, d)
      | inr s ↦
          let m = mark_active-Marked server.server_addr servers dst_addr in
          let i = mark_active-Distinct servers dst_addr d in
          let o = same_address_sym server.server_addr dst_addr s in
          elim (Option-cases (mark_active servers dst_addr)) [
            | inl n ↦ simp (s, n) tt
            | inr (rest, n) ↦
                simp (s, n)
                  (
                    subst (Marked server.server_addr servers dst_addr) n m ∙ simp o e,
                    subst DistinctIn n i,
                  )
          ]
    ]

check_addr-Distinct :
    (servers : List Server) (dst_addr : Address)
    → Distinct servers
    → Distinct (check_addr true servers dst_addr)
unfolding check_addr
check_addr-Distinct servers dst_addr d =
    let m = mark_active-Marked dst_addr servers dst_addr in
    let i = mark_active-Distinct servers dst_addr d in
    elim (Option-cases (mark_active servers dst_addr)) [
      | inl n ↦ simp (n, check_addr) (subst (Marked dst_addr servers dst_addr) n m, d)
      | inr (rest, n) ↦ simp (n, check_addr) (subst DistinctIn n i)
    ]

read_lines-Distinct :
    (pton : Pton) (servers : List Server) (lines : List String)
    → Distinct servers
    → Distinct (read_lines true pton servers lines)
unfolding read_lines
read_lines-Distinct pton servers [] d = d
read_lines-Distinct pton servers (line ∷ lines) d = elim (Option-cases (line_address pton line)) [
  | inl n ↦ simp (n, read_lines) (read_lines-Distinct pton servers lines d)
  | inr (address, n) ↦
      simp (n, read_lines)
        (read_lines-Distinct pton (check_addr true servers address) lines
          (check_addr-Distinct servers address d))
]

marked-marked : (a b : Bool) (mark : Option Mark) → marked a (marked b mark) ≡ marked (b || a) mark
marked-marked true true mark = refl
marked-marked true false mark = refl
marked-marked false true mark = refl
marked-marked false false mark = refl

mark_of-read_lines :
    (address : Address) (pton : Pton) (servers : List Server) (lines : List String)
    → mark_of address (read_lines true pton servers lines)
      ≡ marked (is_named pton address lines) (mark_of address servers)
unfolding read_lines
mark_of-read_lines address pton servers [] = refl
mark_of-read_lines address pton servers (line ∷ lines) =
    elim (Option-cases (line_address pton line)) [
      | inl n ↦ simp (n, read_lines) (mark_of-read_lines address pton servers lines)
      | inr (named, n) ↦
          let after = check_addr true servers named in
          simp (n, read_lines)
            (mark_of-read_lines address pton after lines
              ∙ ap (marked (is_named pton address lines)) (mark_of-check_addr address servers named)
              ∙ marked-marked (is_named pton address lines) (same_address named address)
                  (mark_of address servers))
    ]

mark_of-delete_servers :
    (address : Address) (servers : List Server)
    → Distinct servers
    → mark_of address (delete_servers servers) ≡ kept_mark (mark_of address servers)
unfolding delete_servers
mark_of-delete_servers address [] d = refl
mark_of-delete_servers address (server ∷ servers) (e, d) =
    let i = mark_of-delete_servers address servers d in
    elim (Bool-cases (same_address server.server_addr address)) [
      | inl s ↦ elim (Bool-cases (is_delete server.mark)) [
        | inl t ↦
            let a : mark_of address servers ≡ none =
              ap (λ x. mark_of x servers) (sym (same_address→≡ server.server_addr address s)) ∙ e in
            simp (s, t) (i ∙ ap kept_mark a)
        | inr t ↦ simp (s, t) refl
      ]
      | inr s ↦ elim (Bool-cases (is_delete server.mark)) [
        | inl t ↦ simp (s, t) i
        | inr t ↦ simp (s, t) i
      ]
    ]

delete_servers-Distinct :
    (servers : List Server) → Distinct servers → Distinct (delete_servers servers)
unfolding delete_servers
delete_servers-Distinct [] d = d
delete_servers-Distinct (server ∷ servers) (e, d) =
    let i = delete_servers-Distinct servers d in
    elim (Bool-cases (is_delete server.mark)) [
      | inl t ↦ simp t i
      | inr t ↦ simp t (mark_of-delete_servers server.server_addr servers d ∙ ap kept_mark e, i)
    ]

unnamed_mark-doomed_mark : (mark : Option Mark) → kept_mark (doomed_mark mark) ≡ unnamed_mark mark
unnamed_mark-doomed_mark none = refl
unnamed_mark-doomed_mark (some static) = refl
unnamed_mark-doomed_mark (some delete) = refl
unnamed_mark-doomed_mark (some active) = refl

-- What the marks of the servers are when the file was read: `servers` is the list before,
-- `after` the list after.
abbrev pub Updated : Pton → List String → List Server → List Server → Type 0
Updated pton lines servers after =
    Distinct after
    × ((address : Address)
        → mark_of address after ≡ (
            if is_named pton address lines
            then some active
            else unnamed_mark (mark_of address servers)))

kept_mark-marked :
    (named : Bool) (mark : Option Mark)
    → kept_mark (marked named (doomed_mark mark))
      ≡ (if named then some active else unnamed_mark mark)
kept_mark-marked true mark = refl
kept_mark-marked false mark = unnamed_mark-doomed_mark mark

-- If no two servers have the same address and allocations succeed, then after resolv.conf was
-- read no two servers have the same address, the servers that it names are there and active, and
-- of the others exactly those are left that were static, and they still are.
pub resolv_conf_updated-Updated :
    (pton : Pton) (lines : List String) (servers : List Server)
    → Distinct servers
    → Updated pton lines servers (resolv_conf_updated true pton (some lines) servers)
unfolding resolv_conf_updated
resolv_conf_updated-Updated pton lines servers d =
    let before = reset_mark servers in
    let distinct = read_lines-Distinct pton before lines (Distinct-reset_mark servers d) in
    (
      delete_servers-Distinct (read_lines true pton before lines) distinct,
      λ address.
          mark_of-delete_servers address (read_lines true pton before lines) distinct
          ∙ ap kept_mark (
              mark_of-read_lines address pton before lines
              ∙ ap (marked (is_named pton address lines)) (mark_of-reset_mark address servers))
          ∙ kept_mark-marked (is_named pton address lines) (mark_of address servers),
    )
