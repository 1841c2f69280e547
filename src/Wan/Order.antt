-- ===== src/Wan/Order.antt =====
-- The order in which pushes reach the store of internal/wan/handler.go.
use mathlib.Core.List.{Permᴰ}
use mathlib.Core.Path.{subst}
use lbsync.Prelude.{
  ◌≡◌, ◌∙◌, refl, sym, ap, Text, same, Bool-cases, inl, inr, true, ◌&&◌, Option, none, some, List,
  [], ◌∷◌, All, ok,
}
use lbsync.Version.{Version, newer}
use lbsync.Version.Order.{newer_trans, newer_asymm, newer_connex}
use lbsync.Engine.{Record, pick_newer}
use lbsync.Engine.Publish.Merge.{merged}
use lbsync.Wan.{Codec, Backend, handle_put_record}
use lbsync.Wan.Keys.{NulFree}
use lbsync.Wan.Handler.{held, handle_put_record-merged}

-- Two records that are the same if their versions are.
abbrev Agree : Record → Record → Type 0
Agree a b = a.version ≡ b.version → a ≡ b

abbrev both : Record → Record → Option Record → Option Record
both a b o = pick_newer (some a) (pick_newer (some b) o)

both_tie : (a b : Record) (o : Option Record) → a ≡ b → both a b o ≡ both b a o
both_tie a b o e = ap (λ (x : Record). both x b o) e ∙ ap (λ (x : Record). both b x o) (sym e)

both_order :
    (a b : Record) (o : Option Record) → newer a.version b.version ≡ true → both a b o ≡ both b a o
unfolding pick_newer
both_order a b none h = rw (h, newer_asymm a.version b.version h)
both_order a b (some c) h =
    let ba = newer_asymm a.version b.version h in
    elim (Bool-cases (newer b.version c.version)) [
      | inl bc ↦ rw (bc, newer_trans a.version b.version c.version h bc) (rw (h, ba))
      | inr bc ↦ elim (Bool-cases (newer a.version c.version)) [
        | inl ac ↦ rw (bc, ac) (rw ba)
        | inr ac ↦ rw (bc, ac) (rw bc)
      ]
    ]

pick_newer_comm : (a b : Record) (o : Option Record) → Agree a b → both a b o ≡ both b a o
pick_newer_comm a b o agree = elim (Bool-cases (newer a.version b.version)) [
  | inl h ↦ both_order a b o h
  | inr h ↦ elim (Bool-cases (newer b.version a.version)) [
    | inl k ↦ sym (both_order b a o k)
    | inr k ↦ both_tie a b o (agree (newer_connex a.version b.version h k))
  ]
]

merged_comm :
    (a b : Record) (k j : Text) (o : Option Record)
    → Agree a b
    → merged a k j (merged b k j o) ≡ merged b k j (merged a k j o)
merged_comm a b k j o agree = elim (Bool-cases (same a.kind k && same a.key j)) [
  | inr h ↦ rw h
  | inl h ↦ elim (Bool-cases (same b.kind k && same b.key j)) [
    | inr n ↦ rw (h, n)
    | inl n ↦ rw (h, n) (pick_newer_comm a b o agree)
  ]
]

module _ (codec : Codec) where
  -- The bodies are pushed one after the other.
  unfoldable pub deliver_all : List Text → Backend → Backend
  deliver_all [] b = b
  deliver_all (raw ∷ raws) b = deliver_all raws (handle_put_record codec (ok raw) b).1

  -- The body is a record that its version names, and its kind holds no zero byte.
  abbrev pub Names : (Version → Record) → Text → Type 0
  Names owner raw =
      (r : Record) × (codec.decode_record raw ≡ ok r) × (r ≡ owner r.version) × NulFree r.kind

  -- Two nodes hold the same records.
  abbrev HoldSame : Backend → Backend → Type 0
  HoldSame b b' = (k j : Text) → NulFree k → held codec b k j ≡ held codec b' k j

  module _ (owner : Version → Record) where
    abbrev push : Text → Backend → Backend
    push raw b = (handle_put_record codec (ok raw) b).1

    push-HoldSame :
        (raw : Text) (b b' : Backend)
        → Names owner raw
        → HoldSame b b'
        → HoldSame (push raw b) (push raw b')
    push-HoldSame raw b b' (r, e, named, free) h k j free' =
        (handle_put_record-merged codec raw r b k j e free free').1
        ∙ ap (merged r k j) (h k j free')
        ∙ sym (handle_put_record-merged codec raw r b' k j e free free').1

    push-swap :
        (x y : Text) (b : Backend)
        → Names owner x
        → Names owner y
        → HoldSame (push y (push x b)) (push x (push y b))
    push-swap x y b (r, e, named, free) (s, e', named', free'') k j free' =
        (handle_put_record-merged codec y s (push x b) k j e' free'' free').1
        ∙ ap (merged s k j) (handle_put_record-merged codec x r b k j e free free').1
        ∙ merged_comm s r k j _ (λ v. named' ∙ ap owner v ∙ sym named)
        ∙ ap (merged r k j) (sym (handle_put_record-merged codec y s b k j e' free'' free').1)
        ∙ sym (handle_put_record-merged codec x r (push y b) k j e free free').1

    deliver_all-HoldSame :
        (raws : List Text) (b b' : Backend)
        → All (Names owner) raws
        → HoldSame b b'
        → HoldSame (deliver_all raws b) (deliver_all raws b')
    unfolding deliver_all
    deliver_all-HoldSame [] b b' all h = h
    deliver_all-HoldSame (raw ∷ raws) b b' (one, all) h =
        deliver_all-HoldSame raws (push raw b) (push raw b') all (push-HoldSame raw b b' one h)

    All-perm : {xs ys : List Text} → Permᴰ xs ys → All (Names owner) xs → All (Names owner) ys
    All-perm Permᴰ.nil all = tt
    All-perm (Permᴰ.cons e d) (one, all) = (subst (Names owner) e one, All-perm d all)
    All-perm (Permᴰ.swap e e') (one, (two, all)) =
        (subst (Names owner) e' two, (subst (Names owner) e one, all))
    All-perm (Permᴰ.trans d d') all = All-perm d' (All-perm d all)

    deliver_all_same :
        {xs ys : List Text} (d : Permᴰ xs ys) (b b' : Backend)
        → All (Names owner) xs
        → HoldSame b b'
        → HoldSame (deliver_all xs b) (deliver_all ys b')
    unfolding deliver_all
    deliver_all_same Permᴰ.nil b b' all h = h
    deliver_all_same (Permᴰ.cons {a = x} {b = y} {l₁ = xs} {l₂ = ys} e d) b b' (one, all) h =
        subst (λ (z : Text). HoldSame (deliver_all (x ∷ xs) b) (deliver_all (z ∷ ys) b')) e
          (deliver_all_same d (push x b) (push x b') all (push-HoldSame x b b' one h))
    deliver_all_same (Permᴰ.swap {a = x} {b = y} {b' = w} {l = l} e e') b b' (one, (two, all)) h =
        subst (λ (z : Text). HoldSame (deliver_all (x ∷ y ∷ l) b) (deliver_all (z ∷ w ∷ l) b')) e'
          (subst (λ (z : Text). HoldSame (deliver_all (x ∷ y ∷ l) b) (deliver_all (y ∷ z ∷ l) b')) e
            (deliver_all-HoldSame l (push y (push x b)) (push x (push y b')) all (λ k j free.
              push-HoldSame y (push x b) (push x b') two (push-HoldSame x b b' one h) k j free
              ∙ push-swap x y b' one two k j free)))
    deliver_all_same (Permᴰ.trans d d') b b' all h = λ k j free.
        deliver_all_same d b b' all h k j free
        ∙ deliver_all_same d' b' b' (All-perm d all) (λ k' j' free'. refl) k j free

    -- The order in which pushes arrive does not matter: a node that gets the same bodies in another
    -- order holds the same record under every kind and key. The bodies can be decoded, records of the
    -- same version are the same, and kinds hold no zero byte.
    pub deliver_all-perm :
        (xs ys : List Text) (b : Backend) (k j : Text)
        → Permᴰ xs ys
        → All (Names owner) xs
        → NulFree k
        → held codec (deliver_all xs b) k j ≡ held codec (deliver_all ys b) k j
    deliver_all-perm xs ys b k j d all free =
        deliver_all_same d b b all (λ k' j' free'. refl) k j free
