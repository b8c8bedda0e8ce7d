-- ===== src/Proxy/Fields.antt =====
-- What the steps that build an object do to its fields.
use pingling.Prelude.{
  String, ◌≡◌, refl, ◌∙◌, List, Option, none, some, Bool, true, false, str_eq, ◌||◌, if◌then◌else◌,
  eq_refl,
}
use pingling.Proxy.{WsOpt, H2Opt, GrpcOpt}
use pingling.Proxy.Json.{JsonValue, Laws, lookup, set_some, set_if}
use pingling.Proxy.SingBox.{attach_transport, ws_transport, grpc_transport, http_transport}

abbrev pub option_map : {A B : Type 0} → (A → B) → Option A → Option B
option_map f none = none
option_map f (some a) = some (f a)

module _ {V : Type 0} ⦃j : JsonValue V⦄ (laws : Laws j) where
  -- An object, and what it has at a key.
  pub record Has (v : V) (k : String) (o : Option V) : Type 0 where
    pub is : laws.IsObject v
    pub at : j.get v k ≡ o

  pub object-Has :
      (fields : List (String × V)) (k : String) → Has (j.object fields) k (lookup k fields)
  object-Has fields k = record { is = laws.object_is fields; at = laws.get_object fields k }

  pub set_other :
      (v w : V) (k q : String) (o : Option V)
      → str_eq k q ≡ false
      → Has v q o
      → Has (j.set v k w) q o
  set_other v w k q o e h = record {
    is = laws.set_is v k w h.is;
    at = laws.get_set v k q w h.is ∙ rw e h.at;
  }

  pub set_same : (v w : V) (k q : String) (o : Option V) → Has v q o → Has (j.set v k w) k (some w)
  set_same v w k q o h = record {
    is = laws.set_is v k w h.is;
    at = laws.get_set v k k w h.is ∙ rw (eq_refl k) refl;
  }

  -- A step at another key changes nothing at this one.
  pub set_some-Has :
      {A : Type 0} (k q : String) (f : A → V) (x : Option A) (v : V) (o : Option V)
      → str_eq k q ≡ false
      → Has v q o
      → Has (set_some k f x v) q o
  unfolding set_some
  set_some-Has k q f none v o e h = h
  set_some-Has k q f (some x) v o e h = set_other v (f x) k q o e h

  pub set_if-Has :
      (b : Bool) (k q : String) (w v : V) (o : Option V)
      → str_eq k q ≡ false
      → Has v q o
      → Has (set_if b k w v) q o
  unfolding set_if
  set_if-Has true k q w v o e h = set_other v w k q o e h
  set_if-Has false k q w v o e h = h

  -- A step at a key that was not there leaves there what it sets.
  pub set_some-New :
      {A : Type 0} (k : String) (f : A → V) (x : Option A) (v : V)
      → Has v k none
      → Has (set_some k f x v) k (option_map f x)
  unfolding set_some
  set_some-New k f none v h = h
  set_some-New k f (some x) v h = set_same v (f x) k k none h

  pub if_Has :
      {q : String} {o : Option V} (b : Bool) (v w : V)
      → Has v q o
      → Has w q o
      → Has (if b then v else w) q o
  if_Has true v w h k = h
  if_Has false v w h k = k

  pub attach_transport-Has :
      (out : V) (network : Option String) (ws : Option WsOpt) (h2 : Option H2Opt)
      (grpc : Option GrpcOpt) (q : String) (o : Option V)
      → str_eq "transport" q ≡ false
      → Has out q o
      → Has (attach_transport out network ws h2 grpc) q o
  unfolding attach_transport
  attach_transport-Has out none ws h2 grpc q o e h = h
  attach_transport-Has out (some n) ws h2 grpc q o e h =
      if_Has (str_eq n "ws" || str_eq n "websocket") _ _
        (set_some-Has "transport" q ws_transport ws out o e h)
        (if_Has (str_eq n "grpc") _ _ (set_some-Has "transport" q grpc_transport grpc out o e h) (
          if_Has (str_eq n "h2" || str_eq n "http" || str_eq n "http2") _ _
            (set_some-Has "transport" q http_transport h2 out o e h) h))
