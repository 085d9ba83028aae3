-- ===== src/Keys.antt =====
-- src/channel/keymgmt.py: `KeyBook`, the private key of each party.
use bonded_subsat_channel.Base.{
  ℕ, ◌≡◌, ◌≢◌, ◌<◌, refl, sym, ap, some, List, map, length, set, get_elem?, get_elem?-set_self,
  get_elem?-set_ne, length-set, arith, Result, ok, Error, ◌>>=◌, or_raise, >>=-eq-ok,
}
use bonded_subsat_channel.Base.Int.{ℤ, pos, negsuc, in_range, in_range-lt}
use bonded_subsat_channel.Crypto.{Crypto}

module _ (c : Crypto) where
  open c use {PrivateKey, PublicKey, public_key}

  abbrev pub KeyBook : Type 0
  KeyBook = List PrivateKey

  unfoldable pub public_keys : KeyBook → List PublicKey
  public_keys book = map public_key book

  unfoldable pub private : KeyBook → ℤ → Result PrivateKey
  private book index = do
    i ← in_range Error.key_replacement (length book) index
    or_raise (get_elem? book i) Error.index_error

  unfoldable pub public : KeyBook → ℤ → Result PublicKey
  public book index = do k ← private book index; ok (public_key k)

  unfoldable pub replace : KeyBook → ℤ → PrivateKey → Result KeyBook
  replace book index new_priv = do
    i ← in_range Error.key_replacement (length book) index
    ok (set book i new_priv)

  private_lem :
      (book : KeyBook) (i : ℕ) {k : PrivateKey}
      → i < length book
      → get_elem? book i ≡ some k
      → private book (pos i) ≡ ok k
  unfolding private
  private_lem book i lt e = ground (arith, e)

  replace_lem :
      (book : KeyBook) (index : ℤ) (k : PrivateKey) {book' : KeyBook}
      → replace book index k ≡ ok book'
      → (i : ℕ) × (index ≡ pos i) × (i < length book) × (book' ≡ set book i k)
  unfolding replace
  replace_lem book index k e =
      let (i, ranged, built) =
        >>=-eq-ok (in_range Error.key_replacement (length book) index) (λ i. ok (set book i k)) e in
      let (at_i, lt) = in_range-lt Error.key_replacement (length book) index ranged in
      (i, at_i, lt, ground (arith, built))

  private-set_ne :
      (book : KeyBook) (i : ℕ) (other : ℤ) (k : PrivateKey)
      → other ≢ pos i
      → private (set book i k) other ≡ private book other
  unfolding private
  private-set_ne book i (negsuc j) k ne = refl
  private-set_ne book i (pos j) k ne = ground (
    arith,
    length-set book i k,
    get_elem?-set_ne book {i = i} {j = j} k (λ same. ne (ap pos (sym same))),
  )

  -- After a key replacement the party's key is the new one, every other party keeps its key, and
  -- the number of parties is the same.
  pub private-replace :
      (book : KeyBook) (index other : ℤ) (k : PrivateKey) {book' : KeyBook}
      → replace book index k ≡ ok book'
      → other ≢ index
      → (private book' index ≡ ok k)
        × (private book' other ≡ private book other)
        × (length book' ≡ length book)
  private-replace book index other k e ne =
      let (i, at_i, lt, is_set) = replace_lem book index k e in
      rw (is_set, at_i)
        (
          private_lem (set book i k) i (rw (length-set book i k) lt)
              (get_elem?-set_self book i k lt),
          private-set_ne book i other k (rw at_i at ne),
          length-set book i k,
        )
