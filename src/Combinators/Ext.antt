-- ===== src/Combinators/Ext.antt =====
-- tower-util/src/ext/mod.rs: the methods of `ServiceExt`, which put a combinator round a service.
use pants_tower.AndThen
use pants_tower.AndThen.{AndThen}
use pants_tower.Then
use pants_tower.Then.{Then}
use pants_tower.Mapping
use pants_tower.Mapping.{Map, MapErr}
use pants_tower.Combinators
use pants_tower.Combinators.{WhenReady, Apply, FromErr, new_apply, new_from_err}

when_ready : {S : Type 0} → S → WhenReady S
when_ready self = Combinators.new self

with_apply : {S In Out : Type 0} → S → (In → S → Out) → Apply S In Out
with_apply self f = new_apply f self

and_then : {A B : Type 0} → A → B → AndThen A B
and_then self service = AndThen.new self service

from_err : {S : Type 0} → S → FromErr S
from_err self = new_from_err self

then : {A B : Type 0} → A → B → Then A B
then self service = Then.new self service

map : {S A R : Type 0} → S → (A → R) → Map S A R
map self f = Mapping.new self f

map_err : {S E D : Type 0} → S → (E → D) → MapErr S E D
map_err self f = Mapping.new_err self f
