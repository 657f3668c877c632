-- ===== src/DiskWrapper/Dangling.antt =====
-- code/disk_wrapper.c: a request for whose data there is no memory, and the request behind it.
use mathlib.Core.Path.{subst}
use mathlib.Core.Option.{none-ne-some}
use crashmonkey.Common.{
  ℕ, ◌≡◌, ◌≢◌, refl, sym, ap, ◌∙◌, inl, inr, true, false, ◌&&◌, none, some, ◌>>=◌, List,
}
use crashmonkey.DiskWrite.Meta.{ReqBits}
use crashmonkey.DiskWrapper.{
  Node, put, HwmDevice, Bio, Memory, is_logged, link, fill, log_bio, disk_wrapper_bio,
}
use crashmonkey.DiskWrapper.Chain.{put_self, put_ne, Entry, node_of, last-holds}
use crashmonkey.DiskWrapper.Log.{IsLog, link-at}

fill-fails :
    (memory : Memory) (bio : Bio) (dev : HwmDevice) (q : ℕ)
    → memory.buffer ≡ false
    → fill memory bio dev q ≡ some (record dev { heap = put dev.heap q none })
unfolding fill
fill-fails memory bio dev q e = rw (e, fill) refl

link-dangles : (dev : HwmDevice) (q t : ℕ) → dev.heap t ≡ none → link dev q (some t) ≡ none
unfolding link
link-dangles dev q t e = rw (e, link) refl

module _ (r : ReqBits) where
  logged :
      (memory : Memory) (dev : HwmDevice) (bio : Bio) (q : ℕ)
      → (dev.log_on && is_logged r bio) ≡ true
      → memory.node ≡ some q
      → disk_wrapper_bio r memory dev bio ≡ log_bio memory dev bio (some q)
  unfolding disk_wrapper_bio
  logged memory dev bio q on at = rw (on, disk_wrapper_bio) (ap (log_bio memory dev bio) at)

  -- A request that is logged while `current_write` points to memory that is free.
  after-dangling :
      (memory : Memory) (dev : HwmDevice) (bio : Bio) (q t : ℕ)
      → (dev.log_on && is_logged r bio) ≡ true
      → memory.node ≡ some q
      → dev.current_write ≡ some t
      → dev.heap t ≡ none
      → q ≢ t
      → disk_wrapper_bio r memory dev bio ≡ none
  unfolding log_bio
  after-dangling memory dev bio q t on at last gone ne =
      let new : Node = record { metadata = bio.metadata; bytes = none; next = none } in
      let dev1 = record dev { heap = put dev.heap q (some new) } in
      logged memory dev bio q on at
      ∙ ap (λ p. link dev1 q p >>= (λ linked. fill memory bio linked q)) last
      ∙ ap (λ o. o >>= (λ linked. fill memory bio linked q))
          (link-dangles dev1 q t (put_ne dev.heap q (some new) t (λ same. ne (sym same)) ∙ gone))

  -- What a request for whose data there is no memory leaves.
  no_buffer-dangles :
      (memory : Memory) (dev : HwmDevice) (bio : Bio) (q : ℕ) (es : List Entry)
      → IsLog dev es
      → (dev.log_on && is_logged r bio) ≡ true
      → memory.node ≡ some q
      → memory.buffer ≡ false
      → dev.heap q ≡ none
      → (dev' : HwmDevice) × (disk_wrapper_bio r memory dev bio ≡ some dev')
        × (dev'.current_write ≡ some q)
        × (dev'.heap q ≡ none)
        × (dev'.log_on ≡ dev.log_on)
  unfolding log_bio link
  no_buffer-dangles memory dev bio q es log on at fails fresh =
      let new : Node = record { metadata = bio.metadata; bytes = none; next = none } in
      let dev1 = record dev { heap = put dev.heap q (some new) } in
      elim log.ends [
        | inl (empty, last) ↦
            let dev2 = record dev1 {
              writes = some q;
              current_log_write = some q;
              current_write = some q;
            } in
            (
              record dev2 { heap = put dev2.heap q none },
              logged memory dev bio q on at
                  ∙ ap (λ p. link dev1 q p >>= (λ linked. fill memory bio linked q)) last
                  ∙ fill-fails memory bio dev2 q fails,
              refl,
              put_self dev2.heap q none,
              refl,
            )
        | inr (front, l, split, last) ↦
            let holds =
              last-holds dev.heap dev.writes front l (subst (IsLog dev) split log).chain in
            let apart : l.addr ≢ q =
              λ same. none-ne-some _ (sym fresh ∙ ap dev.heap (sym same) ∙ holds) in
            let old : dev1.heap l.addr ≡ some (node_of l none) =
              put_ne dev.heap q (some new) l.addr apart ∙ holds in
            let dev2 = record dev1 {
              heap = put dev1.heap l.addr (some (node_of l (some q)));
              current_write = some q;
            } in
            (
              record dev2 { heap = put dev2.heap q none },
              logged memory dev bio q on at
                  ∙ ap (λ p. link dev1 q p >>= (λ linked. fill memory bio linked q)) last
                  ∙ ap (λ o. o >>= (λ linked. fill memory bio linked q))
                      (link-at dev1 q l.addr (node_of l none) old)
                  ∙ fill-fails memory bio dev2 q fails,
              refl,
              put_self dev2.heap q none,
              refl,
            )
      ]

  -- Two requests are logged one after the other. Where there is a node but no buffer for the
  -- first, the second, at another address, writes through a pointer to the node that was freed.
  pub no_buffer-faults :
      (first second : Memory) (dev : HwmDevice) (a b : Bio) (q p : ℕ) (es : List Entry)
      → IsLog dev es
      → dev.log_on ≡ true
      → is_logged r a ≡ true
      → is_logged r b ≡ true
      → first.node ≡ some q
      → first.buffer ≡ false
      → dev.heap q ≡ none
      → second.node ≡ some p
      → p ≢ q
      → (dev' : HwmDevice) × (disk_wrapper_bio r first dev a ≡ some dev')
        × (disk_wrapper_bio r second dev' b ≡ none)
  no_buffer-faults first second dev a b q p es log on la lb at fails fresh at' ne =
      let both : (dev.log_on && is_logged r a) ≡ true = ap (λ x. x && is_logged r a) on ∙ la in
      let (dev', e, last, gone, still) =
        no_buffer-dangles first dev a q es log both at fails fresh in
      let both' : (dev'.log_on && is_logged r b) ≡ true =
        ap (λ x. x && is_logged r b) (still ∙ on) ∙ lb in
      (dev', e, after-dangling second dev' b p q both' at' last gone ne)
