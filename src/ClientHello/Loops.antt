-- ===== src/ClientHello/Loops.antt =====
-- The two loops of pkg/protocol/tls/client_hello.go on what an encoded hello holds.
use lhotse_agent.Prelude.{
  zero, suc, ◌∙◌, ◌<◌, ◌≤◌, ==_false, All, subst, ℕ, suc, ◌+◌, ◌-◌, ◌*◌, ◌/◌, ◌%◌, ◌≡◌, refl, List,
  [], ◌∷◌, ◌++◌, arith, ◌==◌, if◌then◌else◌, length, take-length_append, drop-length_append,
  length-append, append-nil, ltb-false, le→leb,
}
use lhotse_agent.ClientHello.{
  extension_loop, parse_server_name_extension, ok, index, slice, uint16, name_loop,
}
use lhotse_agent.ClientHello.Wire.{
  encode_extensions, encode_names, ExtensionFits, name_list, IsWellFormed, EntryFits, Hello,
  server_name_extension, NameEntry, Extension, Fits16, encode16, block16,
}

pub slice_mid :
    (pre mid post : List ℕ) (lo hi : ℕ)
    → lo ≡ length pre
    → hi ≡ lo + length mid
    → slice (pre ++ (mid ++ post)) lo hi ≡ ok mid
unfolding slice
slice_mid pre mid post lo hi el eh =
    rw
      (
        le→leb lo hi (omega arith),
        le→leb hi (length (pre ++ (mid ++ post)))
            (omega (arith, length-append pre (mid ++ post), length-append mid post)),
        el,
        drop-length_append pre (mid ++ post),
        eh,
      )
      (let e : lo + length mid - length pre ≡ length mid = omega arith in
        rw (e, take-length_append mid post))

slice_tail :
    (pre post : List ℕ) (lo hi : ℕ)
    → lo ≡ length pre
    → hi ≡ length (pre ++ post)
    → slice (pre ++ post) lo hi ≡ ok post
slice_tail pre post lo hi el eh =
    subst (λ (t : List ℕ). slice (pre ++ t) lo hi ≡ ok post) (append-nil post)
      (slice_mid pre post [] lo hi el (omega (arith, length-append pre post)))

name_step :
    (fuel kind : ℕ) (name rest : List ℕ)
    → Fits16 name
    → name_loop (suc fuel) (kind ∷ block16 name rest)
      ≡ (if kind == 0 then ok name else name_loop fuel rest)
unfolding name_loop index uint16
name_step fuel kind name rest h =
    let names = kind ∷ block16 name rest in
    let size : length name / 256 * 256 + length name % 256 ≡ length name = omega arith in
    rw (
      le→leb 3 (length names) (omega arith),
      slice_mid (kind ∷ []) (encode16 (length name)) (name ++ rest) 1 3 refl refl,
      slice_tail (kind ∷ encode16 (length name)) (name ++ rest) 3 (length names) refl refl,
      size,
      ltb-false (length (name ++ rest)) (length name) (omega (arith, length-append name rest)),
      slice_mid [] name rest 0 (length name) refl (omega arith),
      slice_tail name rest (length name) (length (name ++ rest)) refl refl,
    )

name_loop_host :
    (es : List NameEntry) (host later : List ℕ) (fuel : ℕ)
    → All EntryFits es
    → Fits16 host
    → length es < fuel
    → name_loop fuel (encode_names es (0 ∷ block16 host later)) ≡ ok host
name_loop_host es host later zero hs h lt = elim lt [ ]
name_loop_host [] host later (suc fuel) hs h lt = name_step fuel 0 host later h
name_loop_host (e ∷ es) host later (suc fuel) hs h lt =
    rw
      (
        name_step fuel e.name_kind e.name (encode_names es (0 ∷ block16 host later)) hs.0.1,
        ==_false e.name_kind 0 hs.0.0,
      )
      (name_loop_host es host later fuel hs.1 h (omega arith))

names-le :
    (es : List NameEntry) (rest : List ℕ) → length es + length rest ≤ length (encode_names es rest)
names-le [] rest = omega arith
names-le (e ∷ es) rest =
    omega (arith, names-le es rest, length-append e.name (encode_names es rest))

server_name_list_block :
    (names : List ℕ)
    → Fits16 names
    → parse_server_name_extension (block16 names []) ≡ name_loop (suc (length names)) names
unfolding parse_server_name_extension uint16
server_name_list_block names fits =
    let size : length names / 256 * 256 + length names % 256 ≡ length names = omega arith in
    rw (
      ltb-false (length (block16 names [])) 2 (omega arith),
      slice_mid [] (encode16 (length names)) (names ++ []) 0 2 refl refl,
      size,
      ltb-false (length (block16 names [])) (2 + length names)
          (omega (arith, length-append names [])),
      slice_mid (encode16 (length names)) names [] 2 (2 + length names) refl refl,
    )

server_name_extension_host :
    (h : Hello)
    → IsWellFormed h
    → parse_server_name_extension (server_name_extension h) ≡ ok h.host_name
unfolding server_name_extension name_list
server_name_extension_host h w =
    server_name_list_block (name_list h) w.names_fit
    ∙ name_loop_host h.earlier h.host_name h.later (suc (length (name_list h))) w.earlier_fit
        w.host_fits (omega (arith, names-le h.earlier (0 ∷ block16 h.host_name h.later)))

extension_step :
    (fuel kind : ℕ) (payload rest : List ℕ)
    → kind < 65536
    → Fits16 payload
    → extension_loop (suc fuel) (encode16 kind ++ block16 payload rest)
      ≡ (if kind == 0 then parse_server_name_extension payload else extension_loop fuel rest)
unfolding extension_loop uint16
extension_step fuel kind payload rest hk h =
    let bytes : List ℕ = encode16 kind ++ block16 payload rest in
    let kind_back : kind / 256 * 256 + kind % 256 ≡ kind = omega arith in
    let size : length payload / 256 * 256 + length payload % 256 ≡ length payload = omega arith in
    rw (
      le→leb 4 (length bytes) (omega arith),
      slice_mid [] (encode16 kind) (block16 payload rest) 0 2 refl refl,
      kind_back,
      slice_mid (encode16 kind) (encode16 (length payload)) (payload ++ rest) 2 4 refl refl,
      slice_tail (encode16 kind ++ encode16 (length payload)) (payload ++ rest) 4 (length bytes)
          refl refl,
      size,
      ltb-false (length (payload ++ rest)) (length payload)
          (omega (arith, length-append payload rest)),
      slice_mid [] payload rest 0 (length payload) refl (omega arith),
      slice_tail payload rest (length payload) (length (payload ++ rest)) refl refl,
    )

pub extension_loop_host :
    (es : List Extension) (h : Hello) (fuel : ℕ)
    → IsWellFormed h
    → All ExtensionFits es
    → length es < fuel
    → extension_loop fuel
        (encode_extensions es (encode16 0 ++ block16 (server_name_extension h) h.after))
      ≡ ok h.host_name
extension_loop_host es h zero w hs lt = elim lt [ ]
extension_loop_host [] h (suc fuel) w hs lt =
    extension_step fuel 0 (server_name_extension h) h.after (omega arith) w.extension_fits
    ∙ server_name_extension_host h w
extension_loop_host (e ∷ es) h (suc fuel) w hs lt =
    rw
      (
        extension_step fuel e.kind e.payload
            (encode_extensions es (encode16 0 ++ block16 (server_name_extension h) h.after)) hs.0.1
            hs.0.2,
        ==_false e.kind 0 hs.0.0,
      )
      (extension_loop_host es h fuel w hs.1 (omega arith))

pub extensions-le :
    (es : List Extension) (rest : List ℕ)
    → length es + length rest ≤ length (encode_extensions es rest)
extensions-le [] rest = omega arith
extensions-le (e ∷ es) rest =
    omega (arith, extensions-le es rest, length-append e.payload (encode_extensions es rest))
