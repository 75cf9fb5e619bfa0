-- ===== src/Api/Start.antt =====
-- Initializations: what a chain of checked calls leads to on a layer that keeps its promises.
use thread_metric_benchmark.Base.{
  ℕ, ◌≤◌, ◌<◌, ◌≡◌, ◌∙◌, Bool, true, false, arith, ◌==◌, if◌then◌else◌, pos, Bytes,
}
use thread_metric_benchmark.Api.{Api}
use thread_metric_benchmark.Api.Laws.{ThreadLaws}
use thread_metric_benchmark.Api.Check.{Outcome, running, tm_check, ◌>>◌}

abbrev pub update {ℓ} : {A : Type ℓ} → (ℕ → A) → ℕ → A → ℕ → A
update f i v j = if i == j then v else f j

module _ {Entry S : Type 0} {api : Api Entry S} (laws : ThreadLaws api) where
  open laws use {created, ready, priority}

  -- Which threads exist, which are ready, and their priorities.
  pub record View (cr rd : ℕ → Bool) (pr : ℕ → ℕ) (s : S) : Type 0 where
    pub created_at : (j : ℕ) → created s j ≡ cr j
    pub ready_at : (j : ℕ) → ready s j ≡ rd j
    pub priority_at : (j : ℕ) → priority s j ≡ pr j

  -- The chain `m` succeeds from `s`, and leads to such a state.
  pub record Starts (m : S → Outcome S) (s : S) (cr rd : ℕ → Bool) (pr : ℕ → ℕ) : Type 0 where
    pub state : S
    pub succeeds : m s ≡ running state
    pub view : View cr rd pr state

  create_status' :
      (text : Bytes) (i q : ℕ) (e : Entry) (s : S)
      → i < 10
      → (1 ≤ q) × (q ≤ 31)
      → created s i ≡ false
      → tm_check text (api.thread_create (pos i) (pos q) e) s
        ≡ running (api.thread_create (pos i) (pos q) e s).1
  unfolding tm_check
  create_status' text i q e s hi hq new = rw (laws.create_status i q e s hi hq new)

  resume_status' :
      (text : Bytes) (i : ℕ) (s : S)
      → i < 10
      → created s i ≡ true
      → tm_check text (api.thread_resume (pos i)) s ≡ running (api.thread_resume (pos i) s).1
  unfolding tm_check
  resume_status' text i s hi old = rw (laws.resume_status i s hi old)

  pub create_Starts :
      (text : Bytes) (i q : ℕ) (e : Entry) {cr rd : ℕ → Bool} {pr : ℕ → ℕ} {s : S}
      → View cr rd pr s
      → i < 10
      → (1 ≤ q) × (q ≤ 31)
      → cr i ≡ false
      → Starts
          (tm_check text (api.thread_create (pos i) (pos q) e))
          s
          (update cr i true)
          (update rd i false)
          (update pr i q)
  create_Starts text i q e {cr} {rd} {pr} {s} v hi hq new =
      let fresh : created s i ≡ false = v.created_at i ∙ new in
      record {
        state = (api.thread_create (pos i) (pos q) e s).1;
        succeeds = create_status' text i q e s hi hq fresh;
        view = record {
          created_at =
              λ j. ground (arith, laws.create_created i q j e s hi hq fresh, v.created_at j);
          ready_at = λ j. ground (arith, laws.create_ready i q j e s hi hq fresh, v.ready_at j);
          priority_at =
              λ j. ground (arith, laws.create_priority i q j e s hi hq fresh, v.priority_at j);
        };
      }

  pub resume_Starts :
      (text : Bytes) (i : ℕ) {cr rd : ℕ → Bool} {pr : ℕ → ℕ} {s : S}
      → View cr rd pr s
      → i < 10
      → cr i ≡ true
      → Starts (tm_check text (api.thread_resume (pos i))) s cr (update rd i true) pr
  resume_Starts text i {cr} {rd} {pr} {s} v hi old =
      let there : created s i ≡ true = v.created_at i ∙ old in
      record {
        state = (api.thread_resume (pos i) s).1;
        succeeds = resume_status' text i s hi there;
        view = record {
          created_at = λ j. laws.resume_created i j s hi there ∙ v.created_at j;
          ready_at = λ j. ground (arith, laws.resume_ready i j s hi there, v.ready_at j);
          priority_at = λ j. laws.resume_priority i j s hi there ∙ v.priority_at j;
        };
      }

  >>-running : (m k : S → Outcome S) (s s' : S) → m s ≡ running s' → (m >> k) s ≡ k s'
  unfolding ◌>>◌
  >>-running m k s s' e = rw (e, ◌>>◌)

  pub >>-Starts :
      (m k : S → Outcome S) {cr rd cr' rd' : ℕ → Bool} {pr pr' : ℕ → ℕ} (s : S)
      → Starts m s cr rd pr
      → ((s' : S) → View cr rd pr s' → Starts k s' cr' rd' pr')
      → Starts (m >> k) s cr' rd' pr'
  >>-Starts m k s first rest = record {
    state = (rest first.state first.view).state;
    succeeds = >>-running m k s first.state first.succeeds ∙ (rest first.state first.view).succeeds;
    view = (rest first.state first.view).view;
  }
