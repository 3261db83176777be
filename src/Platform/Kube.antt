-- ===== src/Platform/Kube.antt =====
-- The Kubernetes objects, with the fields that the program uses. A Go map is an association list,
-- a pointer is an Option, a nil slice is an empty list.
use module_controller.Prelude.{String, Option, List}
use module_controller.Prelude.Int.{ℤ}

abbrev pub Labels : Type 0
Labels = List (String × String)

pub record EnvVar : Type 0 where
  pub name : String
  pub value : String

pub record Container : Type 0 where
  pub name : String
  pub image : String
  pub env : List EnvVar

pub record NodeSelectorRequirement : Type 0 where
  pub key : String
  pub values : List String

pub record NodeSelectorTerm : Type 0 where
  pub match_expressions : List NodeSelectorRequirement

pub record NodeSelector : Type 0 where
  pub node_selector_terms : List NodeSelectorTerm

pub record NodeAffinity : Type 0 where
  pub required_during_scheduling : Option NodeSelector

pub record Affinity : Type 0 where
  pub node_affinity : Option NodeAffinity

pub record Deployment : Type 0 where
  pub name : String
  pub labels : Labels
  -- in milliseconds
  pub creation_timestamp : ℤ
  pub replicas : Option ℤ
  pub containers : List Container
  pub node_selector : Option Labels
  pub affinity : Option Affinity

pub record NodeCondition : Type 0 where
  pub kind : String
  pub status : String

pub record Node : Type 0 where
  pub name : String
  pub labels : Labels
  pub phase : String
  pub conditions : List NodeCondition

pub record Pod : Type 0 where
  pub name : String
  pub namespace : String
  pub labels : Labels
  pub node_name : String
