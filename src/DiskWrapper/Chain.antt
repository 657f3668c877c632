-- ===== src/DiskWrapper/Chain.antt =====
-- The log of code/disk_wrapper.c as a list: nodes that a chain of pointers runs through.
use mathlib.Core.Option.{none-ne-some}
use crashmonkey.Common.{
  ℕ, ◌≡◌, ◌≢◌, refl, sym, ap, ◌∙◌, Option, none, some, List, [], ◌∷◌, ◌++◌, All, arith,
}
use crashmonkey.DiskWrite.Meta.{OpMeta}
use crashmonkey.DiskWrite.Stream.{Bytes}
use crashmonkey.DiskWrapper.{Ptr, Node, Heap, put}

pub put_self : (h : Heap) (p : ℕ) (c : Option Node) → put h p c p ≡ c
put_self h p c = ground arith

pub put_ne : (h : Heap) (p : ℕ) (c : Option Node) (a : ℕ) → a ≢ p → put h p c a ≡ h a
put_ne h p c a ne = ground (arith, ne)

-- An entry of the log: where its node is, and what it holds.
pub record Entry : Type 0 where
  pub addr : ℕ
  pub metadata : OpMeta
  pub bytes : Bytes

abbrev pub node_of : Entry → Ptr → Node
node_of e next = record { metadata = e.metadata; bytes = some e.bytes; next = next }

abbrev pub Chain : Heap → Ptr → List Entry → Type 0
Chain h p [] = p ≡ none
Chain h p (e ∷ es) =
    (next : Ptr) × (p ≡ some e.addr) × (h e.addr ≡ some (node_of e next)) × Chain h next es

-- No entry of the list is at the address.
abbrev pub Apart : ℕ → List Entry → Type 0
Apart a es = All (λ e. e.addr ≢ a) es

-- No two entries are at one address.
abbrev pub Separate : List Entry → Type 0
Separate [] = Unit
Separate (e ∷ es) = Apart e.addr es × Separate es

pub Chain-frame :
    (h h' : Heap) (p : Ptr) (es : List Entry)
    → All (λ e. h' e.addr ≡ h e.addr) es
    → Chain h p es
    → Chain h' p es
Chain-frame h h' p [] same c = c
Chain-frame h h' p (e ∷ es) (here, same) (next, at, holds, c) =
    (next, at, here ∙ holds, Chain-frame h h' next es same c)

-- A write at another address leaves the nodes as they are.
pub put-Apart :
    (h : Heap) (a : ℕ) (c : Option Node) (es : List Entry)
    → Apart a es
    → All (λ e. put h a c e.addr ≡ h e.addr) es
put-Apart h a c [] apart = tt
put-Apart h a c (e ∷ es) (ne, apart) = (put_ne h a c e.addr ne, put-Apart h a c es apart)

-- What holds nothing is no entry's address.
pub Apart-fresh :
    (h : Heap) (p : Ptr) (es : List Entry) (q : ℕ) → h q ≡ none → Chain h p es → Apart q es
Apart-fresh h p [] q free c = tt
Apart-fresh h p (e ∷ es) q free (next, at, holds, c) =
    (λ same. none-ne-some _ (sym free ∙ ap h (sym same) ∙ holds), Apart-fresh h next es q free c)

pub Apart-append :
    (a : ℕ) (es : List Entry) (l : Entry) → Apart a es → l.addr ≢ a → Apart a (es ++ (l ∷ []))
Apart-append a [] l apart ne = (ne, tt)
Apart-append a (e ∷ es) l (ne', apart) ne = (ne', Apart-append a es l apart ne)

pub Separate-append :
    (es : List Entry) (l : Entry) → Apart l.addr es → Separate es → Separate (es ++ (l ∷ []))
Separate-append [] l apart sep = (tt, tt)
Separate-append (e ∷ es) l (ne, apart) (first, sep) =
    (Apart-append e.addr es l first (λ same. ne (sym same)), Separate-append es l apart sep)

pub Apart-end : (a : ℕ) (es : List Entry) (l : Entry) → Apart a (es ++ (l ∷ [])) → l.addr ≢ a
Apart-end a [] l (ne, rest) = ne
Apart-end a (e ∷ es) l (ne, rest) = Apart-end a es l rest

pub Apart-front : (a : ℕ) (es : List Entry) (l : Entry) → Apart a (es ++ (l ∷ [])) → Apart a es
Apart-front a [] l h = tt
Apart-front a (e ∷ es) l (ne, rest) = (ne, Apart-front a es l rest)

-- The last entry is apart from those in front of it.
pub Apart-last : (es : List Entry) (l : Entry) → Separate (es ++ (l ∷ [])) → Apart l.addr es
Apart-last [] l sep = tt
Apart-last (e ∷ es) l (first, sep) =
    (λ same. Apart-end e.addr es l first (sym same), Apart-last es l sep)

-- Three writes at two addresses.
pub puts-Apart :
    (h : Heap) (a b : ℕ) (c c' c'' : Option Node) (es : List Entry)
    → Apart a es
    → Apart b es
    → All (λ e. put (put (put h a c) b c') a c'' e.addr ≡ h e.addr) es
puts-Apart h a b c c' c'' [] fa fb = tt
puts-Apart h a b c c' c'' (e ∷ es) (na, fa) (nb, fb) = (
  put_ne (put (put h a c) b c') a c'' e.addr na
      ∙ put_ne (put h a c) b c' e.addr nb
      ∙ put_ne h a c e.addr na,
  puts-Apart h a b c c' c'' es fa fb,
)

-- The last node points to nothing.
pub last-holds :
    (h : Heap) (p : Ptr) (es : List Entry) (l : Entry)
    → Chain h p (es ++ (l ∷ []))
    → h l.addr ≡ some (node_of l none)
last-holds h p [] l (next, at, holds, end) = holds ∙ ap (λ x. some (node_of l x)) end
last-holds h p (e ∷ es) l (next, at, holds, c) = last-holds h next es l c

-- The last node is made to point to a new one.
pub Chain-append :
    (h h' : Heap) (p : Ptr) (es : List Entry) (l new : Entry)
    → All (λ e. h' e.addr ≡ h e.addr) es
    → h' l.addr ≡ some (node_of l (some new.addr))
    → h' new.addr ≡ some (node_of new none)
    → Chain h p (es ++ (l ∷ []))
    → Chain h' p (es ++ (l ∷ new ∷ []))
Chain-append h h' p [] l new same linked there (next, at, holds, end) =
    (some new.addr, at, linked, (none, refl, there, refl))
Chain-append h h' p (e ∷ es) l new (here, same) linked there (next, at, holds, c) =
    (next, at, here ∙ holds, Chain-append h h' next es l new same linked there c)
