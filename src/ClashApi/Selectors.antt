-- ===== src/ClashApi/Selectors.antt =====
-- Which entries of the proxies are selectors.
use pingling.Prelude.{
  In, Bool-cases, true, ap, sym, subst, ◌∙◌, ◌↔◌, String, List, [], ◌∷◌, ◌≡◌, refl, Option, none,
  some, Result, ok, All, inl, inr, arith, Option-cases, Ordering,
}
use pingling.Prelude.Text.{eq_ignore_ascii_case}
use pingling.Prelude.Order.{str_cmp}
use pingling.Prelude.BTreeMap.{BTreeMap, IsMap, Rising, Below}
use pingling.ClashApi.{
  Outside, ProxySelector, ClashApiClient, ClashApiError, selector, selectors, get_proxy_selectors,
  text_of, texts, http_request,
}

abbrev pub names : List ProxySelector → List String
names [] = []
names (s ∷ ss) = s.name ∷ names ss

-- What the entries of `/proxies` say, read from the fields of their objects.
module _ {W V : Type 0} (o : Outside W V) where
  -- The field is a text, or there is none or one of another kind.
  pub data TextAt (fields : String → Option V) (key : String) : Option String → Type 0 where
    text :
        (v : V) (t : String)
        → fields key ≡ some v
        → o.as_str v ≡ some t
        → TextAt fields key (some t)
    no_field : fields key ≡ none → TextAt fields key none
    no_text : (v : V) → fields key ≡ some v → o.as_str v ≡ none → TextAt fields key none

  -- The texts of an array, without what is not a text.
  pub data TextsOf : List V → List String → Type 0 where
    empty : TextsOf [] []
    keeps :
        {vs : List V} {ts : List String} (v : V) (t : String)
        → o.as_str v ≡ some t
        → TextsOf vs ts
        → TextsOf (v ∷ vs) (t ∷ ts)
    skips :
        {vs : List V} {ts : List String} (v : V)
        → o.as_str v ≡ none
        → TextsOf vs ts
        → TextsOf (v ∷ vs) ts

  pub data TextsAt (fields : String → Option V) (key : String) : List String → Type 0 where
    array :
        {ts : List String} (v : V) (vs : List V)
        → fields key ≡ some v
        → o.as_array v ≡ some vs
        → TextsOf vs ts
        → TextsAt fields key ts
    no_field : fields key ≡ none → TextsAt fields key []
    no_array : (v : V) → fields key ≡ some v → o.as_array v ≡ none → TextsAt fields key []

  -- The entry is an object whose type is "selector" in any case, and this is what it says.
  pub record IsSelector (name : String) (value : V) (s : ProxySelector) : Type 0 where
    pub fields : String → Option V
    pub is_object : o.field value ≡ some fields
    pub named : s.name ≡ name
    pub kind : TextAt fields "type" (some s.kind)
    pub selects : eq_ignore_ascii_case s.kind "selector" ≡ true
    pub now : TextAt fields "now" s.now
    pub all : TextsAt fields "all" s.all

module _ {W V : Type 0} (o : Outside W V) where
  selector-name :
      (name : String) (value : V) (s : ProxySelector)
      → selector o name value ≡ some s
      → s.name ≡ name
  unfolding selector
  selector-name name value s h = ground arith

  selectors-Below :
      (k : String) (ps : BTreeMap V)
      → Below k ps
      → All (λ j. str_cmp k j ≡ Ordering.lt) (names (selectors o ps))
  unfolding selectors
  selectors-Below k [] b = tt
  selectors-Below k ((name, value) ∷ ps) b = elim (Option-cases (selector o name value)) [
    | inl e ↦ rw (e, selectors) (selectors-Below k ps b.1)
    | inr (s, e) ↦
        rw (e, selectors) (rw (selector-name name value s e) (b.0), selectors-Below k ps b.1)
  ]

  -- The selectors are in the order of their names, each once.
  pub selectors-Rising : (ps : BTreeMap V) → IsMap ps → Rising (names (selectors o ps))
  unfolding selectors
  selectors-Rising [] m = tt
  selectors-Rising ((name, value) ∷ ps) m = elim (Option-cases (selector o name value)) [
    | inl e ↦ rw (e, selectors) (selectors-Rising ps m.1)
    | inr (s, e) ↦
        rw (e, selectors)
          (rw (selector-name name value s e) (selectors-Below name ps m.0), selectors-Rising ps m.1)
  ]

  text_of-TextAt :
      (fields : String → Option V) (key : String) → TextAt o fields key (text_of o (fields key))
  text_of-TextAt fields key = elim (Option-cases (fields key)) [
    | inl e ↦ rw e (no_field e)
    | inr (v, e) ↦ elim (Option-cases (o.as_str v)) [
      | inl q ↦ rw (e, q) (no_text v e q)
      | inr (t, q) ↦ rw (e, q) (text v t e q)
    ]
  ]

  TextAt-text_of :
      (fields : String → Option V) (key : String) (t : Option String)
      → TextAt o fields key t
      → text_of o (fields key) ≡ t
  TextAt-text_of fields key t (text v s e q) = rw e q
  TextAt-text_of fields key t (no_field e) = rw e refl
  TextAt-text_of fields key t (no_text v e q) = rw e q

  texts-TextsOf : (vs : List V) → TextsOf o vs (texts o vs)
  unfolding texts
  texts-TextsOf [] = empty
  texts-TextsOf (v ∷ vs) = elim (Option-cases (o.as_str v)) [
    | inl e ↦ rw (e, texts) (skips v e (texts-TextsOf vs))
    | inr (t, e) ↦ rw (e, texts) (keeps v t e (texts-TextsOf vs))
  ]

  TextsOf-texts : (vs : List V) (ts : List String) → TextsOf o vs ts → texts o vs ≡ ts
  unfolding texts
  TextsOf-texts [] ts empty = refl
  TextsOf-texts (x ∷ vs) (y ∷ ts) (keeps v t e rest) =
      rw (e, texts) (ap (◌∷◌ t) (TextsOf-texts vs ts rest))
  TextsOf-texts (x ∷ vs) ts (skips v e rest) = rw (e, texts) (TextsOf-texts vs ts rest)

  unfoldable list_of : Option V → List String
  list_of none = []
  list_of (some v) = elim (o.as_array v) [ none ↦ [] | some vs ↦ texts o vs ]

  list_of-TextsAt :
      (fields : String → Option V) (key : String) → TextsAt o fields key (list_of (fields key))
  unfolding list_of
  list_of-TextsAt fields key = elim (Option-cases (fields key)) [
    | inl e ↦ rw (e, list_of) (no_field e)
    | inr (v, e) ↦ elim (Option-cases (o.as_array v)) [
      | inl q ↦ rw (e, list_of, q) (no_array v e q)
      | inr (vs, q) ↦ rw (e, list_of, q) (array v vs e q (texts-TextsOf vs))
    ]
  ]

  TextsAt-list_of :
      (fields : String → Option V) (key : String) (ts : List String)
      → TextsAt o fields key ts
      → list_of (fields key) ≡ ts
  unfolding list_of
  TextsAt-list_of fields key ts (array v vs e q all) = rw (e, list_of, q) (TextsOf-texts vs ts all)
  TextsAt-list_of fields key ts (no_field e) = rw (e, list_of) refl
  TextsAt-list_of fields key ts (no_array v e q) = rw (e, list_of, q) refl

  -- What the client makes of an entry of type `kind`.
  abbrev made : String → String → (String → Option V) → ProxySelector
  made name kind fields = record {
    name = name;
    kind = kind;
    now = text_of o (fields "now");
    all = list_of (fields "all");
  }

  selector-some :
      (name kind : String) (value : V) (fields : String → Option V)
      → o.field value ≡ some fields
      → text_of o (fields "type") ≡ some kind
      → eq_ignore_ascii_case kind "selector" ≡ true
      → selector o name value ≡ some (made name kind fields)
  unfolding selector list_of
  selector-some name kind value fields e q b = rw (e, selector, q, b) refl

  selector-IsSelector :
      (name : String) (value : V) (s : ProxySelector)
      → selector o name value ≡ some s
      → IsSelector o name value s
  unfolding selector list_of eq_ignore_ascii_case
  selector-IsSelector name value s h = elim (Option-cases (o.field value)) [
    | inl e ↦ let bad : none ≡ some s = rw (e, selector) at h in absurd (ground (arith, bad))
    | inr (fields, e) ↦ elim (Option-cases (text_of o (fields "type"))) [
      | inl q ↦ let bad : none ≡ some s = rw (e, selector, q) at h in absurd (ground (arith, bad))
      | inr (kind, q) ↦ elim (Bool-cases (eq_ignore_ascii_case kind "selector")) [
        | inr b ↦
            let bad : none ≡ some s = rw (e, selector, q, b) at h in absurd (ground (arith, bad))
        | inl b ↦
            let same : made name kind fields ≡ s =
              ground (arith, selector-some name kind value fields e q b, h) in
            subst (IsSelector o name value) same (record {
              fields = fields;
              is_object = e;
              named = refl;
              kind = subst (TextAt o fields "type") q (text_of-TextAt fields "type");
              selects = b;
              now = text_of-TextAt fields "now";
              all = list_of-TextsAt fields "all";
            })
      ]
    ]
  ]

  IsSelector-selector :
      (name : String) (value : V) (s : ProxySelector)
      → IsSelector o name value s
      → selector o name value ≡ some s
  IsSelector-selector name value s i =
      let now = TextAt-text_of i.fields "now" s.now i.now in
      let all = TextsAt-list_of i.fields "all" s.all i.all in
      let same : made name s.kind i.fields ≡ s = ground (arith, now, all, i.named) in
      selector-some name s.kind value i.fields i.is_object
        (TextAt-text_of i.fields "type" (some s.kind) i.kind) i.selects
      ∙ ap (λ x. some x) same

  -- A selector that an entry of the map is.
  pub record Entry (ps : BTreeMap V) (s : ProxySelector) : Type 0 where
    pub value : V
    pub there : In (s.name, value) ps
    pub says : IsSelector o s.name value s

  later :
      (name : String) (value : V) (ps : BTreeMap V) (s : ProxySelector)
      → Entry ps s
      → Entry ((name, value) ∷ ps) s
  later name value ps s x = record { value = x.value; there = inr x.there; says = x.says }

  selectors_sound : (ps : BTreeMap V) (s : ProxySelector) → In s (selectors o ps) → Entry ps s
  unfolding selectors
  selectors_sound [] s i = absurd i
  selectors_sound ((name, value) ∷ ps) s i = elim (Option-cases (selector o name value)) [
    | inl e ↦ later name value ps s (selectors_sound ps s (rw (e, selectors) at i))
    | inr (t, e) ↦ elim (rw (e, selectors) at i) [
      | inl same ↦
          let is : selector o name value ≡ some s = e ∙ ap (λ x. some x) (sym same) in
          let says = selector-IsSelector name value s is in
          record {
            value = value;
            there = inl (ap (λ n. (n, value)) says.named);
            says = subst (λ n. IsSelector o n value s) (sym says.named) says;
          }
      | inr i' ↦ later name value ps s (selectors_sound ps s i')
    ]
  ]

  selectors_complete :
      (ps : BTreeMap V) (name : String) (value : V) (s : ProxySelector)
      → selector o name value ≡ some s
      → In (name, value) ps
      → In s (selectors o ps)
  unfolding selectors
  selectors_complete [] name value s e i = absurd i
  selectors_complete ((n, v) ∷ ps) name value s e (inl same) =
      let e' : selector o n v ≡ some s =
        sym (ap (λ (x : String × V). selector o (x.0) (x.1)) same) ∙ e in
      rw (e', selectors) (inl refl)
  selectors_complete ((n, v) ∷ ps) name value s e (inr i) =
      let rest = selectors_complete ps name value s e i in
      elim (Option-cases (selector o n v)) [
        | inl e' ↦ rw (e', selectors) rest
        | inr (t, e') ↦ rw (e', selectors) (inr rest)
      ]

  -- The list of a map of proxies.
  pub record Listed (ps : BTreeMap V) (result : Result (List ProxySelector) ClashApiError)
      : Type 0 where
    pub list : List ProxySelector
    pub given : result ≡ ok list
    pub rising : Rising (names list)
    pub each : (s : ProxySelector) → In s list ↔ Entry ps s

  -- When the controller answers the request for its proxies with a map, the client lists exactly the
  -- entries that are objects of the type "selector" in any case, in the order of their names, each
  -- once: with the type as it is written, the current choice when it is a text, and the texts in the
  -- array of the choices.
  pub get_proxy_selectors-Listed :
      (client : ClashApiClient) (w : W) (value : V) (ps : BTreeMap V)
      → (http_request o client "GET" "/proxies" none w).0 ≡ ok value
      → o.proxies value ≡ ok ps
      → IsMap ps
      → Listed ps (get_proxy_selectors o client w).0
  unfolding get_proxy_selectors
  get_proxy_selectors-Listed client w value ps answered parsed m = record {
    list = selectors o ps;
    given = ground (arith, answered, parsed);
    rising = selectors-Rising ps m;
    each = λ s. (
      selectors_sound ps s,
      λ x.
          selectors_complete ps s.name x.value s (IsSelector-selector s.name x.value s x.says)
            x.there,
    );
  }
