-- ===== src/Platform/Layout.antt =====
-- doover/src/docker/platform.rs: the order of a device's channels, the names of the edges and the
-- values that a write sends to its pins.
use mathlib.Core.List.Perm
use mathlib.Core.List.{Perm}
use doover_rs.Base.{
  ℕ, zero, suc, ◌≡◌, refl, ap, String, true, false, Option, some, List, [], ◌∷◌, length, arith,
  if_elim, ◌==◌,
}
use doover_rs.Base.Int.{ℤ, pos, negsuc, int_leb}
use doover_rs.Platform.{
  Edge, rising, falling, both, as_str, edge_from_str, IoChannel, IoDetails, of_type,
  insert_by_channel, sort_by_channel, all_channels, channels_in_order, replicate, broadcast_one,
  broadcast_values,
}

-- The text of an edge is read back as the edge.
pub edge_from_str-as_str : (e : Edge) → edge_from_str (as_str e) ≡ some e
edge_from_str-as_str rising = refl
edge_from_str-as_str falling = refl
edge_from_str-as_str both = refl

int_leb_total : (a b : ℤ) → int_leb a b ≡ false → int_leb b a ≡ true
int_leb_total (pos a) (pos b) h = ground (arith, h)
int_leb_total (pos a) (negsuc b) h = refl
int_leb_total (negsuc a) (pos b) h = cc
int_leb_total (negsuc a) (negsuc b) h = ground (arith, h)

-- The channel's number is at most the first one's.
abbrev IsBefore : IoChannel → List IoChannel → Type 0
IsBefore c [] = Unit
IsBefore c (x ∷ xs) = int_leb c.channel x.channel ≡ true

-- The channel numbers never go down.
abbrev pub IsOrdered : List IoChannel → Type 0
IsOrdered [] = Unit
IsOrdered (c ∷ cs) = IsBefore c cs × IsOrdered cs

IsBefore-insert :
    (d c : IoChannel) (cs : List IoChannel)
    → int_leb d.channel c.channel ≡ true
    → IsBefore d cs
    → IsBefore d (insert_by_channel c cs)
unfolding insert_by_channel
IsBefore-insert d c [] h k = h
IsBefore-insert d c (x ∷ xs) h k =
    if_elim (IsBefore d) (int_leb c.channel x.channel) (λ _. h) (λ _. k)

insert-IsOrdered :
    (c : IoChannel) (cs : List IoChannel) → IsOrdered cs → IsOrdered (insert_by_channel c cs)
unfolding insert_by_channel
insert-IsOrdered c [] s = (tt, tt)
insert-IsOrdered c (x ∷ xs) s =
    if_elim IsOrdered (int_leb c.channel x.channel) (λ e. (e, s))
      (λ e. (
        IsBefore-insert x c xs (int_leb_total c.channel x.channel e) s.0,
        insert-IsOrdered c xs s.1,
      ))

sort-IsOrdered : (cs : List IoChannel) → IsOrdered (sort_by_channel cs)
unfolding sort_by_channel
sort-IsOrdered [] = tt
sort-IsOrdered (c ∷ cs) = insert-IsOrdered c (sort_by_channel cs) (sort-IsOrdered cs)

insert-Perm : (c : IoChannel) (cs : List IoChannel) → Perm (insert_by_channel c cs) (c ∷ cs)
unfolding insert_by_channel
insert-Perm c [] = Perm.refl (c ∷ [])
insert-Perm c (x ∷ xs) =
    if_elim (λ (l : List IoChannel). Perm l (c ∷ x ∷ xs)) (int_leb c.channel x.channel)
      (λ _. Perm.refl (c ∷ x ∷ xs))
      (λ _. Perm.trans (Perm.cons x (insert-Perm c xs)) (Perm.swap c x xs))

sort-Perm : (cs : List IoChannel) → Perm (sort_by_channel cs) cs
unfolding sort_by_channel
sort-Perm [] = Perm.refl []
sort-Perm (c ∷ cs) = Perm.trans (insert-Perm c (sort_by_channel cs)) (Perm.cons c (sort-Perm cs))

-- The channels of one type are given in an order of their numbers, and are those of that type of every
-- device, each as often as it occurs there.
pub channels_in_order-IsOrdered :
    (details : IoDetails) (io_type : String)
    → IsOrdered (channels_in_order details io_type)
      × Perm (channels_in_order details io_type) (of_type io_type (all_channels details))
unfolding channels_in_order
channels_in_order-IsOrdered details io_type = (
  sort-IsOrdered (of_type io_type (all_channels details)),
  sort-Perm (of_type io_type (all_channels details)),
)

length-replicate : {A : Type 0} (n : ℕ) (v : A) → length (replicate n v) ≡ n
length-replicate zero v = refl
length-replicate (suc n) v = ap suc (length-replicate n v)

length-broadcast_one :
    {A : Type 0} (n : ℕ) (values out : List A) → broadcast_one n values ≡ some out → length out ≡ n
length-broadcast_one n [] out h = cc
length-broadcast_one n (v ∷ []) out h = let k = length-replicate n v in cc
length-broadcast_one n (v ∷ w ∷ values) out h = cc

-- What a write sends has one value for each pin, whenever the values are accepted.
pub length-broadcast_values :
    {A : Type 0} (pins : List ℤ) (values out : List A)
    → broadcast_values pins values ≡ some out
    → length out ≡ length pins
unfolding broadcast_values
length-broadcast_values pins values out =
    if_elim (λ (o : Option _). o ≡ some out → length out ≡ length pins)
      (length values == length pins) (λ e h. ground (arith, e, h))
      (λ _ h. length-broadcast_one (length pins) values out h)
