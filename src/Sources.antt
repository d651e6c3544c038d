-- ===== src/Sources.antt =====
-- src/sources.rs: the list of price sources that a conversion has used.
use juno_alpha_proxy_contrac.Common.{
  ◌≡◌, sym, List, [], ◌∷◌, ◌++◌, map, append_assoc, append-nil, map-append, ◌∙◌,
}
use juno_alpha_proxy_contrac.Types.{Attribute, Source, Sources, SourcedCoin}

-- the loop of `append_sources`
push_sources : List Source → List Source → List Source
push_sources sources [] = sources
push_sources sources (m ∷ rest) =
    push_sources
      (sources ++ record { contract_addr = m.contract_addr; query_msg = m.query_msg } ∷ []) rest

unfoldable pub append_sources : Sources → SourcedCoin → Sources
unfolding push_sources
append_sources self sourced_coin = record {
  sources = push_sources self.sources sourced_coin.wrapped_sources.sources;
}

-- the loop of `to_attributes`
push_attributes : List Attribute → List Source → List Attribute
push_attributes attributes [] = attributes
push_attributes attributes (source ∷ rest) =
    push_attributes
      (attributes ++ record { key = source.contract_addr; value = source.query_msg } ∷ []) rest

unfoldable pub to_attributes : Sources → List Attribute
unfolding push_attributes
to_attributes self = push_attributes [] self.sources

push_sources-eq-append : (xs ys : List Source) → push_sources xs ys ≡ xs ++ ys
unfolding push_sources
push_sources-eq-append xs [] = sym (append-nil xs)
push_sources-eq-append xs (y ∷ ys) =
    push_sources-eq-append (xs ++ y ∷ []) ys ∙ append_assoc xs (y ∷ []) ys

-- Appending keeps the old sources in front and the coin's own behind them, in order.
pub append_sources_lem :
    (self : Sources) (c : SourcedCoin)
    → (append_sources self c).sources ≡ self.sources ++ c.wrapped_sources.sources
unfolding append_sources
append_sources_lem self c = push_sources-eq-append self.sources c.wrapped_sources.sources

abbrev as_attribute : Source → Attribute
as_attribute s = record { key = s.contract_addr; value = s.query_msg }

push_attributes-eq-append :
    (xs : List Attribute) (ys : List Source) → push_attributes xs ys ≡ xs ++ map as_attribute ys
unfolding push_attributes
push_attributes-eq-append xs [] = sym (append-nil xs)
push_attributes-eq-append xs (y ∷ ys) =
    push_attributes-eq-append (xs ++ as_attribute y ∷ []) ys
    ∙ append_assoc xs (as_attribute y ∷ []) (map as_attribute ys)

-- The attributes of a coin's appended sources are those of the old sources, then its own.
pub to_attributes-append_sources :
    (self : Sources) (c : SourcedCoin)
    → to_attributes (append_sources self c) ≡ to_attributes self ++ to_attributes c.wrapped_sources
unfolding to_attributes
to_attributes-append_sources self c =
    simp (push_attributes-eq-append, append_sources_lem, map-append)
