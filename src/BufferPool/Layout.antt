-- ===== src/BufferPool/Layout.antt =====
-- Where `tryAlloc` puts the nodes of a block: inside it, and apart from each other.
use spsock.Prelude.{
  ℕ, zero, suc, ◌+◌, ◌*◌, ◌≤◌, ◌<◌, ◌≡◌, ◌∙◌, ap, some, arith, get_elem?, tabulate,
}
use spsock.Config.{TcpConfig}
use spsock.BufferPool.{
  Node, peer_read_bsize, peer_write_bsize, total_size, from_int, along, Fits, read_nodes,
  write_nodes,
}

get_elem?-tabulate {ℓ} :
    {A : Type ℓ} (n : ℕ) (f : ℕ → A) (i : ℕ) (a : A)
    → get_elem? (tabulate n f) i ≡ some a
    → (i < n) × (a ≡ f i)
get_elem?-tabulate zero f i a e = absurd (ground arith)
get_elem?-tabulate (suc n) f zero a e = (omega arith, ground arith)
get_elem?-tabulate (suc n) f (suc i) a e =
    let h = get_elem?-tabulate n (λ k. f (suc k)) i a e in (omega (arith, h.0), h.1)

mul_step : (i j n : ℕ) → i < j → i * n + n ≤ j * n
mul_step i j n h = grind arith

pub pairs_lem :
    (c : TcpConfig) (num : ℕ)
    → (peer_read_bsize c + peer_write_bsize c) * num
      ≡ num * peer_read_bsize c + num * peer_write_bsize c
pairs_lem c num = grind arith

from_int_small : (x : ℕ) → x < 2147483648 → from_int x ≡ x
from_int_small x small = ground arith

pub along_small : (start x : ℕ) → start < 4294967296 → x < 2147483648 → along start x ≡ start + x
along_small start x few small = omega (arith, from_int_small x small)

module _ (c : TcpConfig) (blk num : ℕ) (fits : Fits c num) where
  -- The place of a node, without wrapping.
  read_at :
      (i : ℕ) (n : Node)
      → get_elem? (read_nodes c blk num) i ≡ some n
      → (i < num) × (n.offset ≡ 4 + i * peer_read_bsize c)
  read_at i n e =
      let (lt, at) = get_elem?-tabulate num _ i n e in
      let step = mul_step i num (peer_read_bsize c) lt in
      let most = pairs_lem c num in
      let plain = along_small 4 (i * peer_read_bsize c) (omega arith) (omega (arith, step, most)) in
      (lt, ap (λ (k : Node). k.offset) at ∙ plain)

  write_at :
      (i : ℕ) (n : Node)
      → get_elem? (write_nodes c blk num) i ≡ some n
      → (i < num) × (n.offset ≡ 4 + peer_read_bsize c * num + i * peer_write_bsize c)
  write_at i n e =
      let (lt, at) = get_elem?-tabulate num _ i n e in
      let step = mul_step i num (peer_write_bsize c) lt in
      let most = pairs_lem c num in
      let start = along_small 4 (peer_read_bsize c * num) (omega arith) (omega (arith, most)) in
      let plain =
        along_small (4 + peer_read_bsize c * num) (i * peer_write_bsize c) (omega (arith, most))
          (omega (arith, step, most)) in
      (
        lt,
        ap (λ (k : Node). k.offset) at ∙ ap (λ x. along x (i * peer_write_bsize c)) start ∙ plain,
      )

  -- In a block whose size is an `int`, of any two pairs of nodes: neither the read nodes nor the write
  -- nodes overlap, the later read node ends, header and bytes, before the first write node, the
  -- earlier one begins behind the count at the start of the block, and the later write node ends
  -- within the bytes asked of `malloc`.
  pub nodes_apart :
      (i j : ℕ) (n m n' m' : Node)
      → i < j
      → get_elem? (read_nodes c blk num) i ≡ some n
      → get_elem? (read_nodes c blk num) j ≡ some m
      → get_elem? (write_nodes c blk num) i ≡ some n'
      → get_elem? (write_nodes c blk num) j ≡ some m'
      → (4 ≤ n.offset)
        × (n.offset + peer_read_bsize c ≤ m.offset)
        × (m.offset + peer_read_bsize c ≤ n'.offset)
        × (n'.offset + peer_write_bsize c ≤ m'.offset)
        × (m'.offset + peer_write_bsize c ≤ total_size c num)
  nodes_apart i j n m n' m' lt e f e' f' =
      let (in_n, on) = read_at i n e in
      let (in_m, om) = read_at j m f in
      let (in_n', on') = write_at i n' e' in
      let (in_m', om') = write_at j m' f' in
      let sr = mul_step i j (peer_read_bsize c) lt in
      let sw = mul_step i j (peer_write_bsize c) lt in
      let er = mul_step j num (peer_read_bsize c) in_m in
      let ew = mul_step j num (peer_write_bsize c) in_m in
      let most = pairs_lem c num in
      let size = from_int_small (4 + (peer_read_bsize c + peer_write_bsize c) * num) fits in
      (omega arith, omega arith, omega arith, omega arith, omega arith)
