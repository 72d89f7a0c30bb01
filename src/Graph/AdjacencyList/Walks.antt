-- ===== src/Graph/AdjacencyList/Walks.antt =====
-- Edges and walks of a graph, and what `graph_add_edge` adds.
use dsa_guide.Prelude.{ℕ, ◌<◌, ◌≡◌, ◌⊎◌, List, [], ◌∷◌, length, get_or}
use dsa_guide.Graph.AdjacencyList.Marks.{In, Distinct}
use dsa_guide.Graph.AdjacencyList.{GEdge, Graph}

-- Some edge of the chain leads to `v`.
abbrev pub Target : ℕ → List GEdge → Type 0
Target v [] = ⊥
Target v (e ∷ es) = (e.to ≡ v) ⊎ Target v es

abbrev pub edges : Graph → ℕ → List GEdge
edges g u = get_or g.adj u []

pub record IsGraph (g : Graph) : Type 0 where
  pub size : length g.adj ≡ g.n
  pub inside : (u v : ℕ) → Target v (edges g u) → v < g.n

-- Some walk leads from `src` to the vertex.
pub data Reach (g : Graph) (src : ℕ) : ℕ → Type 0 where
  here : Reach g src src
  step : {u v : ℕ} → Reach g src u → Target v (edges g u) → Reach g src v

pub Reach-trans : {g : Graph} {a b c : ℕ} → Reach g a b → Reach g b c → Reach g a c
Reach-trans p here = p
Reach-trans p (step q t) = step (Reach-trans p q) t

-- Each vertex once, and just those to which a walk leads.
pub record Visits (g : Graph) (src : ℕ) (order : List ℕ) : Type 0 where
  pub distinct : Distinct order
  pub reached : (v : ℕ) → In v order → Reach g src v
  pub all : (v : ℕ) → Reach g src v → In v order
