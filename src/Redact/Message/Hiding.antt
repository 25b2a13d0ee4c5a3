-- ===== src/Redact/Message/Hiding.antt =====
-- redact/redactor.go: a field of scalars that the policies hide is zero wherever it stands in a
-- message.
use kratos_kit.Base.{
  ◌≡◌, refl, sym, String, ◌<>◌, Bool, true, false, ◌&&◌, not, Option, none, some, List, [], ◌∷◌,
  arith, if◌then◌else◌,
}
use mathlib.Core.Path.{subst}
use kratos_kit.Redact.Policy.{Any, hide}
use kratos_kit.Redact.Context.{Context, PolicyResolver}
use kratos_kit.Redact.Message.{
  Kind, FieldDescriptor, Message, Fields, Content, Messages, message, no_more, field, scalar,
  no_message, submessage, values, map_values, messages, map_messages, none_left, at_key, Generated,
  value_with, values_with, map_values_with, with_tenant, or_generated, apply_resolved, apply_fields,
  apply_content, apply_messages, apply_with,
}
use kratos_kit.Redact.Message.Kinds.{AreOfKind, HoldKind, IsTyped, AreTyped, HasKind, AllTyped}
use kratos_kit.Redact.Message.Zeros.{
  zero_of, AreZero, HoldZero, IsBlank, Hides, HidesIn, HidesBelow, AllHide, mode_of,
  converted-zero_of,
}

or_generated-Hides :
    (ref : String) (o : Option Message) (m : Message)
    → ((m' : Message) → o ≡ some m' → Hides ref m')
    → Hides ref m
    → Hides ref (or_generated o m)
or_generated-Hides ref none m h t = t
or_generated-Hides ref (some m') m h t = h m' refl

scalars-HidesBelow :
    (ref : String) (b set : Bool) (v w : Any)
    → HidesBelow ref (if b then scalar set v else scalar set w)
unfolding Hides
scalars-HidesBelow ref true set v w = tt
scalars-HidesBelow ref false set v w = tt

module _ (r : PolicyResolver) (ref : String)
    (hides : (ctx : Context) → mode_of (r ctx ref) ≡ some hide) where
  values_with-AreZero :
      (ctx : Context) (k : Kind) (vs : List Any)
      → AreOfKind k vs
      → AreZero k (values_with ctx r ref k vs)
  unfolding values_with
  values_with-AreZero ctx k [] h = tt
  values_with-AreZero ctx k (v ∷ vs) (t, ts) =
      (converted-zero_of k v (r ctx ref) (hides ctx) t, values_with-AreZero ctx k vs ts)

  map_values_with-HoldZero :
      (ctx : Context) (k : Kind) (vs : List (Any × Any))
      → HoldKind k vs
      → HoldZero k (map_values_with ctx r ref k vs)
  unfolding map_values_with
  map_values_with-HoldZero ctx k [] h = tt
  map_values_with-HoldZero ctx k ((key, v) ∷ vs) (t, ts) =
      (converted-zero_of k v (r ctx ref) (hides ctx) t, map_values_with-HoldZero ctx k vs ts)

  scalar-IsBlank :
      (b : Bool) (d : FieldDescriptor) (set : Bool) (v w : Any)
      → (d.has_presence && not set) ≡ b
      → w ≡ zero_of d.kind
      → IsBlank d (if b then scalar set v else scalar set w)
  scalar-IsBlank true d set v w e z = λ h. absurd (ground (arith, e, h))
  scalar-IsBlank false d set v w e z = λ h. z

  module _ (g : Generated)
      (generated : (ctx : Context) (m m' : Message)
        → g.redact_with ctx r m ≡ some m'
        → IsTyped m
        → Hides ref m') where
    mutual
      unfolding apply_resolved IsTyped Hides

      apply_resolved-Hides :
          (ctx : Context) (m : Message) → IsTyped m → Hides ref (apply_resolved g r ctx m)
      apply_resolved-Hides ctx (message name true fs) t =
          or_generated-Hides ref (g.redact_with ctx r (message name true fs)) _
            (λ m' e. generated ctx (message name true fs) m' e t)
            (apply_fields-HidesIn (with_tenant ctx fs) name fs t)
      apply_resolved-Hides ctx (message name false fs) t =
          or_generated-Hides ref (g.redact_with ctx r (message name false fs)) _
            (λ m' e. generated ctx (message name false fs) m' e t) tt

      apply_fields-HidesIn :
          (ctx : Context) (name : String) (fs : Fields)
          → AreTyped fs
          → HidesIn ref name (apply_fields g r ctx name fs)
      apply_fields-HidesIn ctx name no_more t = tt
      apply_fields-HidesIn ctx name (field d c fs) (t, ts) = (
        λ e.
            subst (λ r'. IsBlank d (apply_content g r ctx r' d c)) (sym e)
              (apply_content-IsBlank ctx d c t),
        (
          apply_content-HidesBelow ctx (name <> ("." <> d.name)) d c t,
          apply_fields-HidesIn ctx name fs ts,
        ),
      )

      apply_content-IsBlank :
          (ctx : Context) (d : FieldDescriptor) (c : Content)
          → HasKind d.kind c
          → IsBlank d (apply_content g r ctx ref d c)
      apply_content-IsBlank ctx d (scalar set v) t =
          scalar-IsBlank (d.has_presence && not set) d set v (value_with ctx r ref d.kind v) refl
            (converted-zero_of d.kind v (r ctx ref) (hides ctx) t)
      apply_content-IsBlank ctx d no_message t = tt
      apply_content-IsBlank ctx d (submessage m) t = tt
      apply_content-IsBlank ctx d (values vs) t = values_with-AreZero ctx d.kind vs t
      apply_content-IsBlank ctx d (map_values vs) t = map_values_with-HoldZero ctx d.kind vs t
      apply_content-IsBlank ctx d (messages ms) t = tt
      apply_content-IsBlank ctx d (map_messages ms) t = tt

      apply_content-HidesBelow :
          (ctx : Context) (own : String) (d : FieldDescriptor) (c : Content)
          → HasKind d.kind c
          → HidesBelow ref (apply_content g r ctx own d c)
      apply_content-HidesBelow ctx own d (scalar set v) t =
          scalars-HidesBelow ref (d.has_presence && not set) set v (value_with ctx r own d.kind v)
      apply_content-HidesBelow ctx own d no_message t = tt
      apply_content-HidesBelow ctx own d (submessage m) t = apply_resolved-Hides ctx m t
      apply_content-HidesBelow ctx own d (values vs) t = tt
      apply_content-HidesBelow ctx own d (map_values vs) t = tt
      apply_content-HidesBelow ctx own d (messages ms) t = apply_messages-AllHide ctx ms t
      apply_content-HidesBelow ctx own d (map_messages ms) t = apply_messages-AllHide ctx ms t

      apply_messages-AllHide :
          (ctx : Context) (ms : Messages) → AllTyped ms → AllHide ref (apply_messages g r ctx ms)
      apply_messages-AllHide ctx none_left t = tt
      apply_messages-AllHide ctx (at_key k m ms) (t, ts) =
          (apply_resolved-Hides ctx m t, apply_messages-AllHide ctx ms ts)

-- Where the policies of a resolver hide a field in every context, ApplyWith with this resolver leaves
-- no scalar of this field in a message whose scalars are of their fields' kinds: wherever the field
-- stands, in the message or in a message in it, and if it holds scalars, then its value, each element
-- and each value of a map is zero or not set. For a field that holds messages nothing is claimed: no
-- policy hides these as a whole. The code generated for messages is taken to leave no scalar either.
pub apply_with-Hides :
    (g : Generated) (ctx : Context) (r : PolicyResolver) (of_context : Option PolicyResolver)
    (ref : String) (m : Message)
    → ((ctx : Context) → mode_of (r ctx ref) ≡ some hide)
    → ((ctx : Context) (m m' : Message)
        → g.redact_with ctx r m ≡ some m'
        → IsTyped m
        → Hides ref m')
    → IsTyped m
    → Hides ref (apply_with g ctx (some r) of_context m)
unfolding apply_with
apply_with-Hides g ctx r of_context ref m hides generated t =
    apply_resolved-Hides r ref hides g generated ctx m t
