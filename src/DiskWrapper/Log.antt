-- ===== src/DiskWrapper/Log.antt =====
-- code/disk_wrapper.c, what disk_wrapper_bio does to the log: a request that is logged comes behind
-- those that are there.
use mathlib.Core.Path.{subst}
use mathlib.Core.Option.{none-ne-some}
use mathlib.Core.List.{append_assoc, append-nil}
use crashmonkey.Common.{
  ℕ, ◌-◌, ◌≤◌, ◌≡◌, ◌≢◌, refl, sym, ap, ◌∙◌, ◌⊎◌, inl, inr, true, ◌&&◌, leb, le→leb, ◌>>=◌, none,
  some, List, [], ◌∷◌, ◌++◌, length, length-append, arith,
}
use crashmonkey.DiskWrite.Meta.{ReqBits}
use crashmonkey.DiskWrite.Stream.{Bytes}
use crashmonkey.DiskWrapper.{
  Ptr, Node, put, HwmDevice, Bio, copy_segments, Memory, is_logged, link, fill, log_bio,
  disk_wrapper_bio,
}
use crashmonkey.DiskWrapper.Chain.{
  put_self, put_ne, Entry, node_of, Chain, Separate, Apart-fresh, Separate-append, Apart-end,
  Apart-front, Apart-last, puts-Apart, last-holds, Chain-append,
}

unfoldable pub joined : List Bytes → Bytes
joined [] = []
joined (s ∷ ss) = s ++ joined ss

-- The segments of a bio hold as many bytes as BI_SIZE says.
unfoldable pub IsWhole : Bio → Type 0
IsWhole bio = length (joined bio.segments) ≡ bio.metadata.size

abbrev pub entry_of : ℕ → Bio → Entry
entry_of q bio = record { addr = q; metadata = bio.metadata; bytes = joined bio.segments }

-- `current_write` points to the last entry, if there is one.
abbrev pub EndsAt : Ptr → List Entry → Type 0
EndsAt p es =
    ((es ≡ []) × (p ≡ none))
    ⊎ ((front : List Entry) × (l : Entry) × (es ≡ front ++ (l ∷ [])) × (p ≡ some l.addr))

pub record IsLog (dev : HwmDevice) (es : List Entry) : Type 0 where
  pub chain : Chain dev.heap dev.writes es
  pub separate : Separate es
  pub ends : EndsAt dev.current_write es

copy_segments_lem :
    (copied : Bytes) (left : ℕ) (ss : List Bytes)
    → length (joined ss) ≤ left
    → copy_segments copied left ss ≡ some (copied ++ joined ss, left - length (joined ss))
unfolding copy_segments joined
copy_segments_lem copied left [] h =
    ap (λ c. some (c, left)) (sym (append-nil copied))
    ∙ ap (λ n. some (copied ++ [], n)) (omega arith)
copy_segments_lem copied left (s ∷ ss) h =
    let sum = length-append s (joined ss) in
    let room : leb (length s) left ≡ true = le→leb (length s) left (omega (arith, sum)) in
    rw (room, copy_segments)
      (copy_segments_lem (copied ++ s) (left - length s) ss (omega (arith, sum))
        ∙ ap (λ c. some (c, left - length s - length (joined ss)))
            (append_assoc copied s (joined ss))
        ∙ ap (λ n. some (copied ++ (s ++ joined ss), n)) (omega (arith, sum)))

-- The buffer of a request whose bytes fit exactly.
fill-whole :
    (memory : Memory) (bio : Bio) (dev : HwmDevice) (q : ℕ) (next : Ptr)
    → memory.buffer ≡ true
    → IsWhole bio
    → dev.heap q ≡ some (record { metadata = bio.metadata; bytes = none; next = next })
    → fill memory bio dev q
      ≡ some (record dev { heap = put dev.heap q (some (node_of (entry_of q bio) next)) })
unfolding fill IsWhole
fill-whole memory bio dev q next buffer whole holds =
    let copied = copy_segments_lem [] bio.metadata.size bio.segments (omega (arith, whole)) in
    let exact : bio.metadata.size - length (joined bio.segments) ≡ 0 = omega (arith, whole) in
    let all : copy_segments [] bio.metadata.size bio.segments ≡ some (joined bio.segments, 0) =
      copied ∙ ap (λ n. some (joined bio.segments, n)) exact in
    rw (buffer, holds, all, fill)
      (ap
        (λ b. some (record dev {
          heap =
              put dev.heap q
                (some (record { metadata = bio.metadata; bytes = some b; next = next }));
        }))
        (append-nil (joined bio.segments)))

pub link-at :
    (dev : HwmDevice) (q t : ℕ) (n : Node)
    → dev.heap t ≡ some n
    → link dev q (some t)
      ≡ some (record dev {
        heap = put dev.heap t (some (record n { next = some q }));
        current_write = some q;
      })
unfolding link
link-at dev q t n e = rw (e, link) refl

module _ (r : ReqBits) where
  -- What the log has to do with a request: it is on, the request has a flag that is logged, its
  -- bytes are whole, and there is memory for it at an address that holds nothing.
  pub record Recorded (memory : Memory) (dev : HwmDevice) (bio : Bio) (q : ℕ) : Type 0 where
    pub logged : (dev.log_on && is_logged r bio) ≡ true
    pub whole : IsWhole bio
    pub node : memory.node ≡ some q
    pub buffer : memory.buffer ≡ true
    pub fresh : dev.heap q ≡ none

  -- The device with an entry more, from the list that was empty and from one that was not.
  first_entry : HwmDevice → Entry → HwmDevice
  first_entry dev e = record dev {
    writes = some e.addr;
    current_log_write = some e.addr;
    current_write = some e.addr;
    heap =
        put
          (put dev.heap e.addr (some (record { metadata = e.metadata; bytes = none; next = none })))
          e.addr (some (node_of e none));
  }

  one_more : HwmDevice → Entry → Entry → HwmDevice
  one_more dev l e = record dev {
    current_write = some e.addr;
    heap =
        put
          (put
            (put dev.heap e.addr
              (some (record { metadata = e.metadata; bytes = none; next = none })))
            l.addr (some (node_of l (some e.addr))))
          e.addr (some (node_of e none));
  }

  bio-logged :
      (memory : Memory) (dev : HwmDevice) (bio : Bio) (q : ℕ)
      → Recorded memory dev bio q
      → disk_wrapper_bio r memory dev bio ≡ log_bio memory dev bio (some q)
  unfolding disk_wrapper_bio
  bio-logged memory dev bio q rec =
      rw (rec.logged, disk_wrapper_bio) (ap (log_bio memory dev bio) rec.node)

  log-first :
      (memory : Memory) (dev : HwmDevice) (bio : Bio) (q : ℕ)
      → Recorded memory dev bio q
      → dev.current_write ≡ none
      → log_bio memory dev bio (some q) ≡ some (first_entry dev (entry_of q bio))
  unfolding log_bio link first_entry
  log-first memory dev bio q rec empty =
      let new : Node = record { metadata = bio.metadata; bytes = none; next = none } in
      let dev1 = record dev { heap = put dev.heap q (some new) } in
      ap (λ p. link dev1 q p >>= (λ linked. fill memory bio linked q)) empty
      ∙ fill-whole memory bio
          (record dev1 { writes = some q; current_log_write = some q; current_write = some q }) q
          none rec.buffer rec.whole (put_self dev.heap q (some new))

  log-more :
      (memory : Memory) (dev : HwmDevice) (bio : Bio) (q : ℕ) (l : Entry)
      → Recorded memory dev bio q
      → dev.current_write ≡ some l.addr
      → dev.heap l.addr ≡ some (node_of l none)
      → log_bio memory dev bio (some q) ≡ some (one_more dev l (entry_of q bio))
  unfolding log_bio link one_more
  log-more memory dev bio q l rec at holds =
      let new : Node = record { metadata = bio.metadata; bytes = none; next = none } in
      let dev1 = record dev { heap = put dev.heap q (some new) } in
      let apart : l.addr ≢ q =
        λ same. none-ne-some _ (sym rec.fresh ∙ ap dev.heap (sym same) ∙ holds) in
      let old : dev1.heap l.addr ≡ some (node_of l none) =
        put_ne dev.heap q (some new) l.addr apart ∙ holds in
      let dev2 = record dev1 {
        heap = put dev1.heap l.addr (some (node_of l (some q)));
        current_write = some q;
      } in
      let there : dev2.heap q ≡ some new =
        put_ne dev1.heap l.addr (some (node_of l (some q))) q (λ same. apart (sym same))
        ∙ put_self dev.heap q (some new) in
      ap (λ p. link dev1 q p >>= (λ linked. fill memory bio linked q)) at
      ∙ ap (λ o. o >>= (λ linked. fill memory bio linked q))
          (link-at dev1 q l.addr (node_of l none) old)
      ∙ fill-whole memory bio dev2 q none rec.buffer rec.whole there

  first-IsLog : (dev : HwmDevice) (e : Entry) → IsLog (first_entry dev e) (e ∷ [])
  unfolding first_entry
  first-IsLog dev e = record {
    chain = (
      none,
      refl,
      put_self
          (put dev.heap e.addr (some (record { metadata = e.metadata; bytes = none; next = none })))
          e.addr (some (node_of e none)),
      refl,
    );
    separate = (tt, tt);
    ends = inr ([], e, refl, refl);
  }

  more-IsLog :
      (dev : HwmDevice) (front : List Entry) (l e : Entry)
      → dev.heap e.addr ≡ none
      → IsLog dev (front ++ (l ∷ []))
      → IsLog (one_more dev l e) ((front ++ (l ∷ [])) ++ (e ∷ []))
  unfolding one_more
  more-IsLog dev front l e fresh log =
      let new : Node = record { metadata = e.metadata; bytes = none; next = none } in
      let h1 = put dev.heap e.addr (some new) in
      let h2 = put h1 l.addr (some (node_of l (some e.addr))) in
      let h3 = put h2 e.addr (some (node_of e none)) in
      let apart = Apart-fresh dev.heap dev.writes (front ++ (l ∷ [])) e.addr fresh log.chain in
      let linked : h3 l.addr ≡ some (node_of l (some e.addr)) =
        put_ne h2 e.addr (some (node_of e none)) l.addr (Apart-end e.addr front l apart)
        ∙ put_self h1 l.addr (some (node_of l (some e.addr))) in
      record {
        chain = subst (Chain h3 dev.writes) (sym (append_assoc front (l ∷ []) (e ∷ []))) (
            Chain-append dev.heap h3 dev.writes front l e
              (puts-Apart dev.heap e.addr l.addr (some new) (some (node_of l (some e.addr)))
                (some (node_of e none)) front (Apart-front e.addr front l apart)
                (Apart-last front l log.separate))
              linked (put_self h2 e.addr (some (node_of e none))) log.chain);
        separate = Separate-append (front ++ (l ∷ [])) e apart log.separate;
        ends = inr (front ++ (l ∷ []), e, refl, refl);
      }

  -- A request that is recorded comes last in the log; where the reader stands at the first
  -- entry, it still does.
  pub bio-IsLog :
      (memory : Memory) (dev : HwmDevice) (bio : Bio) (q : ℕ) (es : List Entry)
      → Recorded memory dev bio q
      → IsLog dev es
      → (dev' : HwmDevice) × (disk_wrapper_bio r memory dev bio ≡ some dev')
        × IsLog dev' (es ++ (entry_of q bio ∷ []))
        × (dev'.log_on ≡ dev.log_on)
        × (dev.current_log_write ≡ dev.writes → dev'.current_log_write ≡ dev'.writes)
  unfolding first_entry one_more
  bio-IsLog memory dev bio q es rec log = elim log.ends [
    | inl (empty, at) ↦ (
      first_entry dev (entry_of q bio),
      bio-logged memory dev bio q rec ∙ log-first memory dev bio q rec at,
      subst (λ xs. IsLog (first_entry dev (entry_of q bio)) (xs ++ (entry_of q bio ∷ [])))
          (sym empty) (first-IsLog dev (entry_of q bio)),
      refl,
      λ same. refl,
    )
    | inr (front, l, split, at) ↦
        let log' = subst (IsLog dev) split log in
        let holds = last-holds dev.heap dev.writes front l log'.chain in
        (
          one_more dev l (entry_of q bio),
          bio-logged memory dev bio q rec ∙ log-more memory dev bio q l rec at holds,
          subst (λ xs. IsLog (one_more dev l (entry_of q bio)) (xs ++ (entry_of q bio ∷ [])))
              (sym split) (more-IsLog dev front l (entry_of q bio) rec.fresh log'),
          refl,
          λ same. same,
        )
  ]
