-- ===== src/ClientHello/Runs.antt =====
-- The parser of pkg/protocol/tls/client_hello.go ends on every input, without a run-time error.
use lhotse_agent.Prelude.{
  ◌+◌, ◌*◌, ℕ, zero, suc, ◌-◌, ◌≤◌, ◌<◌, ◌≡◌, refl, Bool, true, false, ◌&&◌, List, [], ◌∷◌, arith,
  ltb, leb, ◌==◌, if◌then◌else◌, length, take, drop, Str, length-take, length-drop,
}
use lhotse_agent.ClientHello.{
  not, parse_extensions, extension_loop, parse_server_name_extension, parse_hello,
  parse_client_hello_server_name, parse_handshake, skip16, skip8, Result, ok, truncated, panic,
  ◌>>=◌, index, slice, uint16, name_loop,
}

-- A run that ends with a value for which `P` holds, or with the truncation error.
pub data Settles {ℓ κ} {A : Type ℓ} (P : A → Type κ) : Result A → Type (ℓ ⊔ κ) where
  settled : (a : A) → P a → Settles P (ok a)
  cut : Settles P truncated

abbrev Any : Str → Type 0
Any s = Unit {0}

Settles-bind {ℓ κ ℓ' κ'} :
    {A : Type ℓ} {B : Type ℓ'} {P : A → Type κ} {Q : B → Type κ'} (m : Result A) (f : A → Result B)
    → Settles P m
    → ((a : A) → P a → Settles Q (f a))
    → Settles Q (m >>= f)
Settles-bind _ f (settled a p) k = k a p
Settles-bind _ f cut k = cut

Settles-if {ℓ κ} :
    {A : Type ℓ} {P : A → Type κ} (b : Bool) (m n : Result A)
    → (b ≡ true → Settles P m)
    → (b ≡ false → Settles P n)
    → Settles P (if b then m else n)
Settles-if true m n h k = h refl
Settles-if false m n h k = k refl

index-Settles : (xs : List ℕ) (i : ℕ) → i < length xs → Settles (λ b. Unit {0}) (index xs i)
unfolding index
index-Settles [] i h = elim h [ ]
index-Settles (x ∷ xs) zero h = settled x tt
index-Settles (x ∷ xs) (suc i) h = index-Settles xs i (omega arith)

length-cut :
    (xs : List ℕ) (lo hi : ℕ) → hi ≤ length xs → length (take (hi - lo) (drop lo xs)) ≡ hi - lo
length-cut xs lo hi h = omega (arith, length-take (hi - lo) (drop lo xs), length-drop lo xs)

slice-Settles :
    (xs : List ℕ) (lo hi : ℕ)
    → lo ≤ hi
    → hi ≤ length xs
    → Settles (λ ys. length ys ≡ hi - lo) (slice xs lo hi)
unfolding slice
slice-Settles xs lo hi h k =
    Settles-if (leb lo hi && leb hi (length xs)) (ok (take (hi - lo) (drop lo xs))) panic
      (λ _. settled _ (length-cut xs lo hi k)) (λ e. ground arith)

uint16-Settles : (xs : List ℕ) → 2 ≤ length xs → Settles (λ n. Unit {0}) (uint16 xs)
unfolding uint16
uint16-Settles [] h = elim h [ ]
uint16-Settles (a ∷ []) h = absurd (omega arith)
uint16-Settles (a ∷ b ∷ xs) h = settled _ tt

name_loop-Settles :
    (fuel : ℕ) (names : List ℕ) → length names < fuel → Settles Any (name_loop fuel names)
unfolding name_loop
name_loop-Settles zero names h = elim h [ ]
name_loop-Settles (suc fuel) names h =
    Settles-if (leb 3 (length names)) _ _
      (λ long.
        let room : 3 ≤ length names = ground arith in
        Settles-bind (index names 0) _ (index-Settles names 0 (omega arith)) λ t _.
          Settles-bind (slice names 1 3) _ (slice-Settles names 1 3 (omega arith) room) λ l el.
            Settles-bind (uint16 l) _ (uint16-Settles l (omega arith)) λ n _.
              Settles-bind (slice names 3 (length names)) _
                (slice-Settles names 3 (length names) room (omega arith))
                λ rest er.
                  Settles-if (ltb (length rest) n) _ _ (λ _. cut)
                    λ fits.
                      let inside : n ≤ length rest = ground arith in
                      Settles-bind (slice rest 0 n) _ (slice-Settles rest 0 n (omega arith) inside)
                        λ s _.
                          Settles-bind (slice rest n (length rest)) _
                            (slice-Settles rest n (length rest) inside (omega arith))
                            λ after ea.
                              Settles-if (t == 0) _ _ (λ _. settled s tt)
                                (λ _. name_loop-Settles fuel after (omega arith)))
      (λ _. Settles-if (ltb 0 (length names)) _ _ (λ _. cut) (λ _. settled [] tt))

server_name_extension-Settles : (bytes : List ℕ) → Settles Any (parse_server_name_extension bytes)
unfolding parse_server_name_extension
server_name_extension-Settles bytes =
    Settles-if (ltb (length bytes) 2) _ _ (λ _. cut)
      λ long.
        let room : 2 ≤ length bytes = ground arith in
        Settles-bind (slice bytes 0 2) _ (slice-Settles bytes 0 2 (omega arith) room) λ l el.
          Settles-bind (uint16 l) _ (uint16-Settles l (omega arith)) λ n _.
            Settles-if (ltb (length bytes) (2 + n)) _ _ (λ _. cut)
              λ fits.
                Settles-bind (slice bytes 2 (2 + n)) _
                  (slice-Settles bytes 2 (2 + n) (omega arith) (ground arith))
                  λ names _. name_loop-Settles (suc (length names)) names (omega arith)

extension_loop-Settles :
    (fuel : ℕ) (extensions : List ℕ)
    → length extensions < fuel
    → Settles Any (extension_loop fuel extensions)
unfolding extension_loop
extension_loop-Settles zero extensions h = elim h [ ]
extension_loop-Settles (suc fuel) extensions h =
    Settles-if (leb 4 (length extensions)) _ _
      (λ long.
        let room : 4 ≤ length extensions = ground arith in
        Settles-bind (slice extensions 0 2) _
          (slice-Settles extensions 0 2 (omega arith) (omega arith))
          λ k ek. Settles-bind (uint16 k) _ (uint16-Settles k (omega arith)) λ t _.
            Settles-bind (slice extensions 2 4) _ (slice-Settles extensions 2 4 (omega arith) room)
              λ l el. Settles-bind (uint16 l) _ (uint16-Settles l (omega arith)) λ n _.
                Settles-bind (slice extensions 4 (length extensions)) _
                  (slice-Settles extensions 4 (length extensions) room (omega arith))
                  λ rest er.
                    Settles-if (ltb (length rest) n) _ _ (λ _. cut)
                      λ fits.
                        let inside : n ≤ length rest = ground arith in
                        Settles-bind (slice rest 0 n) _
                          (slice-Settles rest 0 n (omega arith) inside)
                          λ s _.
                            Settles-bind (slice rest n (length rest)) _
                              (slice-Settles rest n (length rest) inside (omega arith))
                              λ after ea.
                                Settles-if (t == 0) _ _ (λ _. server_name_extension-Settles s)
                                  (λ _. extension_loop-Settles fuel after (omega arith)))
      (λ _. settled [] tt)

-- Where a block is skipped, the new offset lies in the message.
skip8-Settles :
    (hello : List ℕ) (offset : ℕ) → Settles (λ next. next ≤ length hello) (skip8 hello offset)
unfolding skip8
skip8-Settles hello offset =
    Settles-if (leb (length hello) offset) _ _ (λ _. cut)
      λ inside.
        Settles-bind (index hello offset) _ (index-Settles hello offset (ground arith)) λ n _.
          Settles-if (ltb (length hello) (offset + 1 + n)) _ _ (λ _. cut)
            λ fits. settled _ (ground arith)

skip16-Settles :
    (hello : List ℕ) (offset : ℕ) → Settles (λ next. next ≤ length hello) (skip16 hello offset)
unfolding skip16
skip16-Settles hello offset =
    Settles-if (ltb (length hello) (offset + 2)) _ _ (λ _. cut)
      λ inside.
        Settles-bind (slice hello offset (offset + 2)) _
          (slice-Settles hello offset (offset + 2) (omega arith) (ground arith))
          λ l el. Settles-bind (uint16 l) _ (uint16-Settles l (omega arith)) λ n _.
            Settles-if (ltb (length hello) (offset + 2 + n)) _ _ (λ _. cut)
              λ fits. settled _ (ground arith)

parse_extensions-Settles :
    (hello : List ℕ) (offset : ℕ)
    → offset ≤ length hello
    → Settles Any (parse_extensions hello offset)
unfolding parse_extensions
parse_extensions-Settles hello offset h =
    Settles-if (offset == length hello) _ _ (λ _. settled [] tt)
      λ _.
        Settles-if (ltb (length hello) (offset + 2)) _ _ (λ _. cut)
          λ inside.
            Settles-bind (slice hello offset (offset + 2)) _
              (slice-Settles hello offset (offset + 2) (omega arith) (ground arith))
              λ l el. Settles-bind (uint16 l) _ (uint16-Settles l (omega arith)) λ n _.
                Settles-if (ltb (length hello) (offset + 2 + n)) _ _ (λ _. cut)
                  λ fits.
                    Settles-bind (slice hello (offset + 2) (offset + 2 + n)) _
                      (slice-Settles hello (offset + 2) (offset + 2 + n) (omega arith)
                        (ground arith))
                      λ extensions _.
                        extension_loop-Settles (suc (length extensions)) extensions (omega arith)

parse_hello-Settles : (hello : List ℕ) → Settles Any (parse_hello hello)
unfolding parse_hello
parse_hello-Settles hello =
    Settles-if (ltb (length hello) 34) _ _ (λ _. cut)
      λ _. Settles-bind (skip8 hello 34) _ (skip8-Settles hello 34) λ a _.
        Settles-bind (skip16 hello a) _ (skip16-Settles hello a) λ b _.
          Settles-bind (skip8 hello b) _ (skip8-Settles hello b)
            λ c inside. parse_extensions-Settles hello c inside

parse_handshake-Settles : (body : List ℕ) → Settles Any (parse_handshake body)
unfolding parse_handshake
parse_handshake-Settles body =
    Settles-if (ltb (length body) 4) _ _ (λ _. settled [] tt)
      λ long.
        let room : 4 ≤ length body = ground arith in
        Settles-bind (index body 0) _ (index-Settles body 0 (omega arith)) λ t _.
          Settles-if (not (t == 1)) _ _ (λ _. settled [] tt)
            λ _. Settles-bind (index body 1) _ (index-Settles body 1 (omega arith)) λ b1 _.
              Settles-bind (index body 2) _ (index-Settles body 2 (omega arith)) λ b2 _.
                Settles-bind (index body 3) _ (index-Settles body 3 (omega arith)) λ b3 _.
                  let hello_len : ℕ = b1 * 65536 + b2 * 256 + b3 in
                  Settles-if (ltb (length body) (4 + hello_len)) _ _ (λ _. cut)
                    λ fits.
                      Settles-bind (slice body 4 (4 + hello_len)) _
                        (slice-Settles body 4 (4 + hello_len) (omega arith) (ground arith))
                        λ hello _. parse_hello-Settles hello

-- On every sequence of bytes ParseClientHelloServerName returns: its loops end, no index or slice
-- expression is out of range, and the only error is the truncation error.
pub parse_client_hello_server_name-Settles :
    (bytes : List ℕ) → Settles (λ s. Unit {0}) (parse_client_hello_server_name bytes)
unfolding parse_client_hello_server_name
parse_client_hello_server_name-Settles bytes =
    Settles-if (ltb (length bytes) 5) _ _ (λ _. cut)
      λ long.
        let room : 5 ≤ length bytes = ground arith in
        Settles-bind (index bytes 0) _ (index-Settles bytes 0 (omega arith)) λ t _.
          Settles-if (not (t == 22)) _ _ (λ _. settled [] tt)
            λ _.
              Settles-bind (slice bytes 3 5) _ (slice-Settles bytes 3 5 (omega arith) room) λ l el.
                Settles-bind (uint16 l) _ (uint16-Settles l (omega arith)) λ n _.
                  Settles-if (ltb (length bytes) (5 + n)) _ _ (λ _. cut)
                    λ fits.
                      Settles-bind (slice bytes 5 (5 + n)) _
                        (slice-Settles bytes 5 (5 + n) (omega arith) (ground arith))
                        λ body _. parse_handshake-Settles body
