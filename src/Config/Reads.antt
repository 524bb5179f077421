-- ===== src/Config/Reads.antt =====
-- The blocks of parseYaml of src/Config/Config.cpp, as lists of the settings that they read: a block
-- ends with what the document says, or an exception leaves it.
use single_flight_proxy_serv.Prelude.{ap, ◌∙◌, String, Option, none, some, List, [], ◌∷◌, ◌≡◌, refl}
use single_flight_proxy_serv.Config.Yaml.{Exception, Try, returns, throws, YamlCpp}
use single_flight_proxy_serv.Config.Paths.{at, present, kept, thrown, first, find}
use single_flight_proxy_serv.Config.{
  Config, Reading, read, failed, ◌>>=◌, enter, under, assigned, setting,
}

-- The block ends with these settings, if no part of it throws; or else the first exception leaves it.
abbrev pub Reads : List (Option Exception) → Config → Reading → Type 0
Reads [] d r = r ≡ read d
Reads (none ∷ os) d r = Reads os d r
Reads (some e ∷ os) d r = (c : Config) × (r ≡ failed e c)

abbrev pub concat {ℓ} : {A : Type ℓ} → List A → List A → List A
concat [] ys = ys
concat (x ∷ xs) ys = x ∷ concat xs ys

>>=-Reads :
    (bs cs : List (Option Exception)) (d d' : Config) (r : Reading) (f : Config → Reading)
    → Reads bs d r
    → Reads cs d' (f d)
    → Reads (concat bs cs) d' (r >>= f)
>>=-Reads [] cs d d' r f h k = rw h k
>>=-Reads (none ∷ bs) cs d d' r f h k = >>=-Reads bs cs d d' r f h k
>>=-Reads (some e ∷ bs) cs d d' r f (c, h) k = (c, rw h refl)

module _ (yaml : YamlCpp) where
  open yaml use {Node, lookup}

  -- A setting: where it stands in a node, and in which field of the object.
  pub record Entry : Type 1 where
    pub A : Type 0
    pub path : List String
    pub as_value : Node → Try A
    pub get : Config → A
    pub assign : A → Config → Config
    pub same : (c : Config) → assign (get c) c ≡ c

  -- The entries' exceptions and values, where `o` is the node that they stand in.
  abbrev pub faults : Try (Option Node) → List Entry → List (Option Exception)
  faults o [] = []
  faults o (e ∷ es) = thrown (at o (λ n. find yaml n e.path e.as_value)) ∷ faults o es

  abbrev pub settle : Try (Option Node) → List Entry → Config → Config
  settle o [] c = c
  settle o (e ∷ es) c =
      settle o es (e.assign (kept (e.get c) (at o (λ n. find yaml n e.path e.as_value))) c)

  abbrev pub here : Node → Try (Option Node)
  here n = returns (some n)

  faults-concat :
      (o : Try (Option Node)) (es fs : List Entry)
      → faults o (concat es fs) ≡ concat (faults o es) (faults o fs)
  faults-concat o [] fs = refl
  faults-concat o (e ∷ es) fs = rw (faults-concat o es fs) refl

  settle-concat :
      (o : Try (Option Node)) (es fs : List Entry) (c : Config)
      → settle o (concat es fs) c ≡ settle o fs (settle o es c)
  settle-concat o [] fs c = refl
  settle-concat o (e ∷ es) fs c = settle-concat o es fs _

  pub record IsBlock (es : List Entry) (block : Node → Config → Reading) : Type 0 where
    pub reads :
        (n : Node) (c : Config) → Reads (faults (here n) es) (settle (here n) es c) (block n c)

  pub then-IsBlock :
      (es fs : List Entry) {block next : Node → Config → Reading}
      → IsBlock es block
      → IsBlock fs next
      → IsBlock (concat es fs) (λ n c. block n c >>= next n)
  then-IsBlock es fs first after = record {
    reads = λ n c.
        rw (faults-concat (here n) es fs, settle-concat (here n) es fs c)
          (>>=-Reads (faults (here n) es) (faults (here n) fs) _ _ _ _ (first.reads n c)
            (after.reads n _));
  }

  -- Where the node is not there.
  absent-Reads :
      (es : List Entry) (c : Config)
      → Reads (faults (returns none) es) (settle (returns none) es c) (read c)
  unfolding at thrown kept
  absent-Reads [] c = refl
  absent-Reads (e ∷ es) c = rw (e.same c) (absent-Reads es c)

  abbrev pub below : String → List Entry → List Entry
  below key [] = []
  below key (e ∷ es) = record e { path = key ∷ e.path } ∷ below key es

  faults-below :
      (n : Node) (key : String) (es : List Entry)
      → faults (here n) (below key es) ≡ faults (lookup n key) es
  unfolding at find
  faults-below n key [] = refl
  faults-below n key (e ∷ es) = rw (faults-below n key es) refl

  settle-below :
      (n : Node) (key : String) (es : List Entry) (c : Config)
      → settle (here n) (below key es) c ≡ settle (lookup n key) es c
  unfolding at find
  settle-below n key [] c = refl
  settle-below n key (e ∷ es) c = settle-below n key es _

  enter-Reads :
      (o : Try (Option Node)) (e : Entry) (es : List Entry) {block : Node → Config → Reading}
      → IsBlock (e ∷ es) block
      → (c : Config) → Reads (faults o (e ∷ es)) (settle o (e ∷ es) c) (enter yaml block o c)
  unfolding enter at thrown
  enter-Reads (returns none) e es h c = absent-Reads (e ∷ es) c
  enter-Reads (returns (some n)) e es h c = h.reads n c
  enter-Reads (throws x) e es h c = (c, refl)

  pub under-IsBlock :
      (key : String) (e : Entry) (es : List Entry) {block : Node → Config → Reading}
      → IsBlock (e ∷ es) block
      → IsBlock (below key (e ∷ es)) (λ n. under yaml n key block)
  unfolding under
  under-IsBlock key e es h = record {
    reads = λ n c.
        rw (faults-below n key (e ∷ es), settle-below n key (e ∷ es) c)
          (enter-Reads (lookup n key) e es h c);
  }

  assigned-Reads :
      (e : Entry) (t : Try e.A) (c : Config)
      → Reads
          (thrown (present t) ∷ [])
          (e.assign (kept (e.get c) (present t)) c)
          (assigned e.assign t c)
  unfolding thrown present assigned kept
  assigned-Reads e (returns v) c = refl
  assigned-Reads e (throws x) c = (c, refl)

  pub setting-IsBlock :
      (key : String) (e : Entry)
      → IsBlock
          (below key (record e { path = [] } ∷ []))
          (λ n. setting yaml n key e.as_value e.assign)
  unfolding setting find at
  setting-IsBlock key e =
      under-IsBlock key (record e { path = [] }) []
        (record { reads = λ n c. assigned-Reads e (e.as_value n) c })

pub Reads-first :
    (os : List (Option Exception)) (d : Config) (r : Reading)
    → Reads os d r
    → (first os ≡ none → r ≡ read d)
      × ((e : Exception) → first os ≡ some e → (c : Config) × (r ≡ failed e c))
unfolding first
Reads-first [] d r h = (λ t. h, λ e f. absurd (cc f))
Reads-first (none ∷ os) d r h = Reads-first os d r h
Reads-first (some x ∷ os) d r (c, h) =
    (λ t. absurd (cc t), λ e f. let same : x ≡ e = cc f in (c, h ∙ ap (λ y. failed y c) same))
